-- ===== src/History/Window.antt =====
-- The window of a store: the last `max_rows` of all rows, in memory and after a restart.
use event_time_mcdm_agent.Common.{
  ℕ, zero, suc, ◌+◌, ◌-◌, ◌≤◌, pos, false, ◌≡◌, refl, ap, sym, ◌∙◌, List, [], ◌∷◌, ◌++◌, length,
  drop, length-append, length-drop, drop-append, arith, Bool-cases, inl, inr, ltb,
}
use mathlib.Core.List.{append_assoc, append-nil}
use event_time_mcdm_agent.History.{
  Parquet, HistoryStore, last_rows, truncate_rows, append, append_all,
}

module _ {R : Type 0} where
  drop_none : (k : ℕ) → drop {A = R} k [] ≡ []
  drop_none zero = refl
  drop_none (suc k) = refl

  drop-drop : (m n : ℕ) (xs : List R) → drop m (drop n xs) ≡ drop (n + m) xs
  drop-drop m zero xs = ap (λ k. drop k xs) (omega arith)
  drop-drop m (suc n) [] = drop_none m ∙ sym (drop_none (suc n + m))
  drop-drop m (suc n) (x ∷ xs) = drop-drop m n xs ∙ ap (λ k. drop k (x ∷ xs)) shift
    where
      shift : suc (n + m) ≡ suc n + m
      shift = omega arith

  -- Whether or not the list is too long, what is kept is its last rows.
  pub truncate_rows-eq-drop :
      (n : ℕ) (xs : List R) → truncate_rows (pos (suc n)) xs ≡ drop (length xs - suc n) xs
  unfolding truncate_rows last_rows
  truncate_rows-eq-drop n xs = elim (Bool-cases (ltb (suc n + 0) (length xs + 0))) [
    | inl e ↦ rw e refl
    | inr e ↦ rw e (ap (λ k. drop k xs) (nothing e))
  ]
    where
      nothing : ltb (suc n + 0) (length xs + 0) ≡ false → 0 ≡ length xs - suc n
      nothing e = ground arith

  pub length-truncate_rows : (n : ℕ) (xs : List R) → length (truncate_rows (pos (suc n)) xs) ≤ suc n
  length-truncate_rows n xs =
      rw (truncate_rows-eq-drop n xs) (omega (arith, length-drop (length xs - suc n) xs))

  pub truncate_rows_short :
      (n : ℕ) (xs : List R) → length xs ≤ suc n → truncate_rows (pos (suc n)) xs ≡ xs
  truncate_rows_short n xs h = truncate_rows-eq-drop n xs ∙ ap (λ k. drop k xs) nothing
    where
      nothing : length xs - suc n ≡ 0
      nothing = omega arith

  -- What a truncation drops, a later one would have dropped.
  pub truncate_rows-append :
      (n : ℕ) (xs ys : List R)
      → truncate_rows (pos (suc n)) (truncate_rows (pos (suc n)) xs ++ ys)
        ≡ truncate_rows (pos (suc n)) (xs ++ ys)
  truncate_rows-append n xs ys =
      let k = length xs - suc n in
      let all = xs ++ ys in
      ap (λ t. truncate_rows (pos (suc n)) (t ++ ys)) (truncate_rows-eq-drop n xs)
      ∙ ap (truncate_rows (pos (suc n))) (sym (drop-append k xs ys (omega arith)))
      ∙ truncate_rows-eq-drop n (drop k all)
      ∙ drop-drop (length (drop k all) - suc n) k all
      ∙ ap (λ j. drop j all) (omega (arith, length-drop k all, length-append xs ys))
      ∙ sym (truncate_rows-eq-drop n all)

  module _ {B : Type 0} (parquet : Parquet R B) where
    rows-append_all :
        (n : ℕ) (ys : List R) (s : HistoryStore R B)
        → length s.rows ≤ suc n
        → (append_all parquet (pos (suc n)) ys s).rows ≡ truncate_rows (pos (suc n)) (s.rows ++ ys)
    unfolding append_all append
    rows-append_all n [] s h =
        sym (ap (truncate_rows (pos (suc n))) (append-nil s.rows) ∙ truncate_rows_short n s.rows h)
    rows-append_all n (y ∷ ys) s h =
        rows-append_all n ys (append parquet (pos (suc n)) y s).1
          (length-truncate_rows n (s.rows ++ (y ∷ [])))
        ∙ truncate_rows-append n (s.rows ++ (y ∷ [])) ys
        ∙ ap (truncate_rows (pos (suc n))) (append_assoc s.rows (y ∷ []) ys)

    -- The store is a rolling window: with room for n + 1 rows, after any number of appends it holds
    -- exactly the last n + 1 of the rows that it had and those that were appended, in their order,
    -- or all of them if there are fewer.
    pub append_all-eq-drop :
        (n : ℕ) (ys : List R) (s : HistoryStore R B)
        → length s.rows ≤ suc n
        → let all = s.rows ++ ys in
          let rows = (append_all parquet (pos (suc n)) ys s).rows in
          (rows ≡ drop (length all - suc n) all) × (length rows ≤ suc n)
    append_all-eq-drop n ys s h = (
      rows-append_all n ys s h ∙ truncate_rows-eq-drop n (s.rows ++ ys),
      rw (rows-append_all n ys s h) (length-truncate_rows n (s.rows ++ ys)),
    )
