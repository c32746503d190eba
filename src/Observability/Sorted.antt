-- ===== src/Observability/Sorted.antt =====
-- agent/observability.py: what sorting the items of a dict keeps.
use event_time_mcdm_agent.Common.{
  [], ◌∷◌, In, AllDistinct, Bool, true, false, if◌then◌else◌, ◌≡◌, sym, ◌⊎◌, inl, inr, String,
  string_eq, ◌==◌,
}
use event_time_mcdm_agent.Common.Dict.{Dict, insert}
use Prim.Native.String.{compare}
use text.Mathlib.Text.{is_lt}
use event_time_mcdm_agent.Observability.Registry.{insert_label, sort_labels}
use event_time_mcdm_agent.Observability.Render.{names}

In-insert_label :
    (t : String) (l : String × String) (ls : Dict String String)
    → In t (names (insert_label l ls))
    → (t ≡ l.0) ⊎ In t (names ls)
unfolding insert_label
In-insert_label t l [] i = i
In-insert_label t (k, v) ((j, u) ∷ rest) i =
    split (is_lt (compare k j)) (In-insert_label t (k, v) rest) i
  where
    split :
        (b : Bool)
        → (In t (names (insert_label (k, v) rest)) → (t ≡ k) ⊎ In t (names rest))
        → In t (names (if b then (k, v) ∷ (j, u) ∷ rest else (j, u) ∷ insert_label (k, v) rest))
        → (t ≡ k) ⊎ In t (names ((j, u) ∷ rest))
    split true later m = m
    split false later (inl e) = inr (inl e)
    split false later (inr m) = elim (later m) [ inl e ↦ inl e | inr n ↦ inr (inr n) ]

AllDistinct-insert_label :
    (l : String × String) (ls : Dict String String)
    → ¬ In l.0 (names ls)
    → AllDistinct (names ls)
    → AllDistinct (names (insert_label l ls))
unfolding insert_label
AllDistinct-insert_label l [] new d = (new, tt)
AllDistinct-insert_label (k, v) ((j, u) ∷ rest) new (apart, d) =
    split (is_lt (compare k j)) (AllDistinct-insert_label (k, v) rest (λ i. new (inr i)) d)
  where
    split :
        (b : Bool)
        → AllDistinct (names (insert_label (k, v) rest))
        → AllDistinct
            (names (if b then (k, v) ∷ (j, u) ∷ rest else (j, u) ∷ insert_label (k, v) rest))
    split true later = (new, (apart, d))
    split false later = (
      λ i. elim (In-insert_label j (k, v) rest i) [ inl e ↦ new (inl (sym e)) | inr n ↦ apart n ],
      later,
    )

In-sort_labels :
    (t : String) (ls : Dict String String) → In t (names (sort_labels ls)) → In t (names ls)
unfolding sort_labels
In-sort_labels t [] i = i
In-sort_labels t (l ∷ ls) i = elim (In-insert_label t l (sort_labels ls) i) [
  | inl e ↦ inl e
  | inr m ↦ inr (In-sort_labels t ls m)
]

pub AllDistinct-sort_labels :
    (ls : Dict String String) → AllDistinct (names ls) → AllDistinct (names (sort_labels ls))
unfolding sort_labels
AllDistinct-sort_labels [] d = tt
AllDistinct-sort_labels (l ∷ ls) (new, d) =
    AllDistinct-insert_label l (sort_labels ls) (λ i. new (In-sort_labels l.0 ls i))
      (AllDistinct-sort_labels ls d)

In-insert :
    (t name text : String) (d : Dict String String)
    → In t (names (insert name text d))
    → (t ≡ name) ⊎ In t (names d)
unfolding insert
In-insert t name text [] i = i
In-insert t name text ((k, v) ∷ d) i = split (k == name) (In-insert t name text d) i
  where
    split :
        (b : Bool)
        → (In t (names (insert name text d)) → (t ≡ name) ⊎ In t (names d))
        → In t (names (if b then (k, text) ∷ d else (k, v) ∷ insert name text d))
        → (t ≡ name) ⊎ In t (names ((k, v) ∷ d))
    split true later m = inr m
    split false later (inl e) = inr (inl e)
    split false later (inr m) = elim (later m) [ inl e ↦ inl e | inr n ↦ inr (inr n) ]

-- A dict has no name twice, and stays so.
pub AllDistinct-insert :
    (name text : String) (d : Dict String String)
    → AllDistinct (names d)
    → AllDistinct (names (insert name text d))
unfolding insert
AllDistinct-insert name text [] distinct = (λ i. elim i [ ], tt)
AllDistinct-insert name text ((k, v) ∷ d) (new, distinct) =
    split (k == name) (string_eq.same_iff k name).1 (AllDistinct-insert name text d distinct)
  where
    split :
        (b : Bool)
        → (k ≡ name → b ≡ true)
        → AllDistinct (names (insert name text d))
        → AllDistinct (names (if b then (k, text) ∷ d else (k, v) ∷ insert name text d))
    split true same later = (new, distinct)
    split false same later = (
      λ i. elim (In-insert k name text d i) [ inl e ↦ absurd (differ (same e)) | inr n ↦ new n ],
      later,
    )
      where
        differ : false ≡ true → ⊥
        differ e = cc
