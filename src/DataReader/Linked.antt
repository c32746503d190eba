-- ===== src/DataReader/Linked.antt =====
-- The constructor of a DataReader links its last Aave reader.
use event_time_mcdm_agent.Common.{
  ℕ, ◌≡◌, refl, ap, sym, ◌∙◌, Option, none, some, List, [], ◌∷◌, ◌++◌, All, All-append, subst,
}
use mathlib.Core.List.{append-nil, append_assoc}
use event_time_mcdm_agent.DataReader.Bridge.{
  ReaderObject, aave_object, comet_object, other_object, Heap, System, set_attribute,
  link_aave_compat, bind_reader, bind_readers,
}

abbrev IsAave : ReaderObject → Type 0
IsAave (aave_object pool r) = Unit
IsAave _ = ⊥

abbrev IsNotAave : ReaderObject → Type 0
IsNotAave (aave_object pool r) = ⊥
IsNotAave _ = Unit

-- The last Aave reader of a list, if there is one.
abbrev pub IsLast : Heap → List ℕ → Option ℕ → Type 0
IsLast h readers none = All (λ p. IsNotAave (h p)) readers
IsLast h readers (some p) =
    (before : List ℕ) × (later : List ℕ) × (readers ≡ before ++ (p ∷ later))
    × IsAave (h p)
    × All (λ q. IsNotAave (h q)) later

-- The loop of the constructor links the last Aave reader, and changes no reader.
bind_reader-Keeps : (p : ℕ) (o : ReaderObject) (s : System) → (bind_reader p o s).1 ≡ s.1
unfolding bind_reader link_aave_compat set_attribute
bind_reader-Keeps p (aave_object pool r) s = refl
bind_reader-Keeps p (comet_object comet) s = refl
bind_reader-Keeps p other_object s = refl

pub bind_readers-Keeps : (ps : List ℕ) (s : System) → (bind_readers ps s).1 ≡ s.1
unfolding bind_readers
bind_readers-Keeps [] s = refl
bind_readers-Keeps (p ∷ ps) s =
    bind_readers-Keeps ps (bind_reader p (s.1 p) s) ∙ bind_reader-Keeps p (s.1 p) s

module _ (h : Heap) where
  -- A reader of another class leaves the last one.
  IsLast-append :
      (seen : List ℕ) (p : ℕ) (linked : Option ℕ)
      → IsNotAave (h p)
      → IsLast h seen linked
      → IsLast h (seen ++ (p ∷ [])) linked
  IsLast-append seen p none n last = All-append _ seen (p ∷ []) last (n, tt)
  IsLast-append seen p (some q) n (before, later, split, is_aave, rest) = (
    before,
    later ++ (p ∷ []),
    ap (λ l. l ++ (p ∷ [])) split ∙ append_assoc before (q ∷ later) (p ∷ []),
    is_aave,
    All-append _ later (p ∷ []) rest (n, tt),
  )

  bind_reader-IsLast :
      (seen : List ℕ) (p : ℕ) (o : ReaderObject) (s : System)
      → h p ≡ o
      → IsLast h seen s.0.aave_reader
      → IsLast h (seen ++ (p ∷ [])) (bind_reader p o s).0.aave_reader
  unfolding bind_reader link_aave_compat set_attribute
  bind_reader-IsLast seen p (aave_object pool r) s e last =
      (seen, [], refl, subst IsAave (sym e) tt, tt)
  bind_reader-IsLast seen p (comet_object comet) s e last =
      IsLast-append seen p s.0.aave_reader (subst IsNotAave (sym e) tt) last
  bind_reader-IsLast seen p other_object s e last =
      IsLast-append seen p s.0.aave_reader (subst IsNotAave (sym e) tt) last

  pub bind_readers-IsLast :
      (seen ps : List ℕ) (s : System)
      → s.1 ≡ h
      → IsLast h seen s.0.aave_reader
      → IsLast h (seen ++ ps) (bind_readers ps s).0.aave_reader
  unfolding bind_readers
  bind_readers-IsLast seen [] s e last =
      subst (λ l. IsLast h l s.0.aave_reader) (sym (append-nil seen)) last
  bind_readers-IsLast seen (p ∷ ps) s e last =
      let s' = bind_reader p (s.1 p) s in
      subst (λ l. IsLast h l (bind_readers ps s').0.aave_reader) (append_assoc seen (p ∷ []) ps)
        (bind_readers-IsLast (seen ++ (p ∷ [])) ps s' (bind_reader-Keeps p (s.1 p) s ∙ e)
          (bind_reader-IsLast seen p (s.1 p) s (ap (λ (k : Heap). k p) (sym e)) last))

-- The attributes that `__init__` leaves to the bridge.
bind_reader-attributes :
    (p : ℕ) (o : ReaderObject) (s : System)
    → ((bind_reader p o s).0.aave_atoken ≡ s.0.aave_atoken)
      × ((bind_reader p o s).0.aave_variable_debt ≡ s.0.aave_variable_debt)
unfolding bind_reader link_aave_compat set_attribute
bind_reader-attributes p (aave_object pool r) s = (refl, refl)
bind_reader-attributes p (comet_object comet) s = (refl, refl)
bind_reader-attributes p other_object s = (refl, refl)

pub bind_readers-attributes :
    (ps : List ℕ) (s : System)
    → ((bind_readers ps s).0.aave_atoken ≡ s.0.aave_atoken)
      × ((bind_readers ps s).0.aave_variable_debt ≡ s.0.aave_variable_debt)
unfolding bind_readers
bind_readers-attributes [] s = (refl, refl)
bind_readers-attributes (p ∷ ps) s =
    let (a, v) = bind_readers-attributes ps (bind_reader p (s.1 p) s) in
    let (a', v') = bind_reader-attributes p (s.1 p) s in (a ∙ a', v ∙ v')
