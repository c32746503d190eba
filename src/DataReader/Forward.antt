-- ===== src/DataReader/Forward.antt =====
-- What a write to an old attribute of a DataReader reaches.
use event_time_mcdm_agent.Common.{
  ℕ, ◌≡◌, refl, ap, sym, ◌∙◌, Option, none, some, List, [], ◌∷◌, subst, String, Bool, true, false,
  nat_beq, if◌then◌else◌,
}
use event_time_mcdm_agent.DataReader.Bridge.{
  ReaderObject, aave_object, comet_object, other_object, Heap, Assignment, to_aave_pool, to_comet,
  to_aave_atoken, to_aave_variable_debt, System, set_atoken, set_variable_debt, forward,
  set_attribute, bind_readers, blank, assign_each, new_data_reader,
}
use event_time_mcdm_agent.DataReader.Linked.{
  IsLast, bind_readers-Keeps, bind_readers-IsLast, bind_readers-attributes,
}

-- The two attributes that are forwarded.
pub data Write : Type 0 where
  atoken : Option String → Write
  variable_debt : Option String → Write

abbrev pub assignment : Write → Assignment
assignment (atoken v) = to_aave_atoken v
assignment (variable_debt v) = to_aave_variable_debt v

abbrev pub assignments : List Write → List Assignment
assignments [] = []
assignments (w ∷ ws) = assignment w ∷ assignments ws

-- The last value written, or the one from before.
abbrev pub last_atoken : List Write → Option String → Option String
last_atoken [] v = v
last_atoken (atoken w ∷ ws) v = last_atoken ws w
last_atoken (variable_debt w ∷ ws) v = last_atoken ws v

abbrev pub last_variable_debt : List Write → Option String → Option String
last_variable_debt [] v = v
last_variable_debt (atoken w ∷ ws) v = last_variable_debt ws v
last_variable_debt (variable_debt w ∷ ws) v = last_variable_debt ws w

-- An Aave reader whose caches hold what was written last.
abbrev pub written : List Write → ReaderObject → ReaderObject
written ws (aave_object pool r) = aave_object pool (record r {
  atoken = last_atoken ws r.atoken;
  variable_debt = last_variable_debt ws r.variable_debt;
})
written ws o = o

abbrev pub reached : Option ℕ → List Write → Heap → ℕ → ReaderObject
reached none ws h q = h q
reached (some p) ws h q = if nat_beq p q then written ws (h q) else h q

-- One write before the others.
written-atoken :
    (v : Option String) (ws : List Write) (o : ReaderObject)
    → written ws (set_atoken v o) ≡ written (atoken v ∷ ws) o
written-atoken v ws (aave_object pool r) = refl
written-atoken v ws (comet_object comet) = refl
written-atoken v ws other_object = refl

written-variable_debt :
    (v : Option String) (ws : List Write) (o : ReaderObject)
    → written ws (set_variable_debt v o) ≡ written (variable_debt v ∷ ws) o
written-variable_debt v ws (aave_object pool r) = refl
written-variable_debt v ws (comet_object comet) = refl
written-variable_debt v ws other_object = refl

reached-forward :
    (linked : Option ℕ) (change : ReaderObject → ReaderObject) (w : Write) (ws : List Write)
    (h : Heap) (q : ℕ)
    → ((o : ReaderObject) → written ws (change o) ≡ written (w ∷ ws) o)
    → reached linked ws (forward linked change h) q ≡ reached linked (w ∷ ws) h q
unfolding forward
reached-forward none change w ws h q one = refl
reached-forward (some p) change w ws h q one = by_case (nat_beq p q)
  where
    by_case :
        (b : Bool)
        → (if b
            then written ws (if b then change (h q) else h q)
            else (if b then change (h q) else h q))
          ≡ (if b then written (w ∷ ws) (h q) else h q)
    by_case true = one (h q)
    by_case false = refl

assign_each-reached :
    (ws : List Write) (s : System) (q : ℕ)
    → (assign_each (assignments ws) s).1 q ≡ reached s.0.aave_reader ws s.1 q
unfolding assign_each set_attribute
assign_each-reached [] (d, h) q = none_written d.aave_reader
  where
    unwritten : (o : ReaderObject) → o ≡ written [] o
    unwritten (aave_object pool r) = refl
    unwritten (comet_object comet) = refl
    unwritten other_object = refl

    by_case : (b : Bool) → h q ≡ (if b then written [] (h q) else h q)
    by_case true = unwritten (h q)
    by_case false = refl

    none_written : (linked : Option ℕ) → h q ≡ reached linked [] h q
    none_written none = refl
    none_written (some p) = by_case (nat_beq p q)
assign_each-reached (atoken v ∷ ws) (d, h) q =
    assign_each-reached ws (set_attribute (to_aave_atoken v) (d, h)) q
    ∙ reached-forward d.aave_reader (set_atoken v) (atoken v) ws h q (written-atoken v ws)
assign_each-reached (variable_debt v ∷ ws) (d, h) q =
    assign_each-reached ws (set_attribute (to_aave_variable_debt v) (d, h)) q
    ∙ reached-forward d.aave_reader (set_variable_debt v) (variable_debt v) ws h q
        (written-variable_debt v ws)

assign_each-attributes :
    (ws : List Write) (s : System)
    → let d = (assign_each (assignments ws) s).0 in
      (d.aave_reader ≡ s.0.aave_reader)
      × (d.aave_atoken ≡ last_atoken ws s.0.aave_atoken)
      × (d.aave_variable_debt ≡ last_variable_debt ws s.0.aave_variable_debt)
unfolding assign_each set_attribute
assign_each-attributes [] s = (refl, refl, refl)
assign_each-attributes (atoken v ∷ ws) s =
    assign_each-attributes ws (set_attribute (to_aave_atoken v) s)
assign_each-attributes (variable_debt v ∷ ws) s =
    assign_each-attributes ws (set_attribute (to_aave_variable_debt v) s)

-- A new DataReader changes no reader, and is linked to the last Aave reader of its list. Whatever is
-- then written to `_aave_atoken` and `_aave_variable_debt`, that reader's caches hold the last values
-- written, or what they held if none was; no other reader changes; and the attributes hold the last
-- values too, or None.
pub assign_each-IsForwarded :
    (readers : List ℕ) (h : Heap) (ws : List Write)
    → let s = assign_each (assignments ws) (new_data_reader readers h) in
      ((q : ℕ) → (new_data_reader readers h).1 q ≡ h q)
      × IsLast h readers s.0.aave_reader
      × ((q : ℕ) → s.1 q ≡ reached s.0.aave_reader ws h q)
      × (s.0.aave_atoken ≡ last_atoken ws none)
      × (s.0.aave_variable_debt ≡ last_variable_debt ws none)
unfolding new_data_reader assign_each set_attribute forward
assign_each-IsForwarded readers h ws =
    let (linked, a, v) = assign_each-attributes ws start in
    let (a', v') = bind_readers-attributes readers opened in
    (
      λ q. ap (λ (k : Heap). k q) kept,
      subst (IsLast h readers) (sym linked) (bind_readers-IsLast h [] readers opened refl tt),
      λ q.
          subst (λ l. (assign_each (assignments ws) start).1 q ≡ reached l ws h q) (sym linked)
            (assign_each-reached ws start q
              ∙ ap (λ (k : Heap). reached start.0.aave_reader ws k q) kept),
      a ∙ ap (last_atoken ws) a',
      v ∙ ap (last_variable_debt ws) v',
    )
  where
    opened : System
    opened =
        assign_each
          (to_aave_pool none
            ∷ to_comet none
            ∷ to_aave_atoken none
            ∷ to_aave_variable_debt none
            ∷ [])
          (blank readers, h)

    start : System
    start = bind_readers readers opened

    kept : start.1 ≡ h
    kept = bind_readers-Keeps readers opened
