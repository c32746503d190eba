-- ===== src/Observability/Quantile.antt =====
-- agent/observability.py: the values that a summary reports.
use event_time_mcdm_agent.Common.{
  ℕ, zero, suc, ◌+◌, ◌/◌, ◌^◌, ◌<◌, ◌≤◌, pos, ◌-ℤ◌, ltb, List, [], ◌∷◌, length, All, In, Bool, true,
  false, if◌then◌else◌, ◌≡◌, refl, ap, ◌∙◌, subst, Bool-cases, ◌⊎◌, inl, inr, arith, ok,
}
use event_time_mcdm_agent.Float.{Float, ◌≼◌, zero_f, one_f}
use event_time_mcdm_agent.Float.Laws.{IsIeee}
use event_time_mcdm_agent.Observability.Registry.{MetricKey}
use event_time_mcdm_agent.Observability.Render.{
  Builtins, Line, count_line, sum_line, quantile_line, summary_lines, index, insert_value,
  sort_onto, quantile, min_ℤ,
}

index-In {ℓ} :
    {A : Type ℓ}
    → (xs : List A) (i : ℕ) → i < length xs
    → (x : A) × (index xs (pos i) ≡ ok x) × In x xs
unfolding index
index-In [] i h = absurd (omega arith)
index-In (x ∷ xs) zero h = (x, refl, inl refl)
index-In (x ∷ xs) (suc i) h = let (y, e, m) = index-In xs i (omega arith) in (y, e, inr m)

min-lt_length : (k n : ℕ) → 0 < n → (i : ℕ) × (min_ℤ (pos k) (pos n -ℤ pos 1) ≡ pos i) × (i < n)
unfolding ◌-ℤ◌
min-lt_length k zero h = absurd (omega arith)
min-lt_length k (suc n) h = elim (Bool-cases (ltb n k)) [
  | inl e ↦ (n, ground arith, omega arith)
  | inr e ↦ (k, ground arith, ground arith)
]

module _ {F : Type 0} ⦃f : Float F⦄ where
  In-insert_value : (x y : F) (ys : List F) → In x (insert_value y ys) → (x ≡ y) ⊎ In x ys
  unfolding insert_value
  In-insert_value x y [] h = h
  In-insert_value x y (z ∷ zs) h = split (f.lt y z) (In-insert_value x y zs) h
    where
      split :
          (b : Bool)
          → (In x (insert_value y zs) → (x ≡ y) ⊎ In x zs)
          → In x (if b then y ∷ z ∷ zs else z ∷ insert_value y zs)
          → (x ≡ y) ⊎ In x (z ∷ zs)
      split true later m = m
      split false later (inl e) = inr (inl e)
      split false later (inr m) = elim (later m) [ inl e ↦ inl e | inr k ↦ inr (inr k) ]

  length-insert_value : (y : F) (ys : List F) → length (insert_value y ys) ≡ suc (length ys)
  unfolding insert_value
  length-insert_value y [] = refl
  length-insert_value y (z ∷ zs) = ground (arith, length-insert_value y zs)

  In-sort_onto : (x : F) (xs sorted : List F) → In x (sort_onto xs sorted) → In x xs ⊎ In x sorted
  unfolding sort_onto
  In-sort_onto x [] sorted h = inr h
  In-sort_onto x (y ∷ ys) sorted h = elim (In-sort_onto x ys (insert_value y sorted) h) [
    | inl m ↦ inl (inr m)
    | inr m ↦ elim (In-insert_value x y sorted m) [ inl e ↦ inl (inl e) | inr k ↦ inr k ]
  ]

  length-sort_onto : (xs sorted : List F) → length (sort_onto xs sorted) ≡ length xs + length sorted
  unfolding sort_onto
  length-sort_onto [] sorted = omega arith
  length-sort_onto (x ∷ xs) sorted =
      omega (arith, length-sort_onto xs (insert_value x sorted), length-insert_value x sorted)

  In-sorted : (xs : List F) (y : F) → In y (sort_onto xs []) → In y xs
  In-sorted xs y m = elim (In-sort_onto y xs [] m) [ inl k ↦ k | inr k ↦ elim k [ ] ]

  length-sorted : (xs : List F) → length (sort_onto xs []) ≡ length xs
  length-sorted xs = omega (arith, length-sort_onto xs [])

  -- The lines of a summary.
  abbrev pub summary : MetricKey → ℕ → F → F → F → F → List (Line F)
  summary key n total p50 p95 p99 =
      count_line key n
      ∷ sum_line key total
      ∷ quantile_line key "0.5" p50
      ∷ quantile_line key "0.95" p95
      ∷ quantile_line key "0.99" p99
      ∷ []

  assembled :
      (b : Builtins F) (key : MetricKey) (x : F) (xs : List F) (p50 p95 p99 : F)
      → length (sort_onto (x ∷ xs) []) ≡ suc (length xs)
      → index (sort_onto (x ∷ xs) []) (pos (length (sort_onto (x ∷ xs) []) / 2)) ≡ ok p50
      → quantile (f.ratio 95 100) (sort_onto (x ∷ xs) []) ≡ ok p95
      → quantile (f.ratio 99 100) (sort_onto (x ∷ xs) []) ≡ ok p99
      → summary_lines b key (x ∷ xs)
        ≡ ok (summary key (suc (length xs)) (b.sum (sort_onto (x ∷ xs) [])) p50 p95 p99)
  unfolding summary_lines
  assembled b key x xs p50 p95 p99 size e50 e95 e99 = rw (e50, e95, e99, size) refl

  module _ (ieee : IsIeee F) where
    -- A share of a length is a position that is not negative.
    share_pos :
        (q : F) (n : ℕ)
        → zero_f ≼ q
        → q ≼ one_f
        → n < 2 ^ 512
        → (k : ℕ) × (f.truncate (f.mul q (f.ratio n 1)) ≡ pos k)
    share_pos q n low high small =
        let m = f.ratio n 1 in
        let m_finite = ieee.ratio_finite n 1 small (omega arith) in
        let zero_finite = ieee.ratio_finite 0 1 (omega arith) (omega arith) in
        let one_finite = ieee.ratio_finite 1 1 (omega arith) (omega arith) in
        let q_finite = ieee.finite_between zero_f q one_f zero_finite one_finite low high in
        let m_pos = ieee.ratio_le 0 1 n 1 (omega arith) (omega arith) (omega arith) in
        let share = ieee.mul_number q m q_finite m_finite in
        let above =
          ieee.mul_le zero_f q zero_f m (ieee.finite_number zero_f zero_finite) low
            (ieee.finite_number zero_f zero_finite) m_pos
            (ieee.mul_number zero_f zero_f zero_finite zero_finite) share in
        let below =
          ieee.mul_le q one_f m m low high m_pos (ieee.finite_number m m_finite) share
            (ieee.mul_number one_f m one_finite m_finite) in
        let above' = subst (λ z. z ≼ f.mul q m) ieee.zero_mul_zero above in
        let below' = subst (λ z. f.mul q m ≼ z) (ieee.one_mul m m_finite) below in
        ieee.truncate_pos (f.mul q m)
          (ieee.finite_between zero_f (f.mul q m) m zero_finite m_finite above' below') above'

    -- The value at a share of the list is one of the list's.
    quantile-In :
        (q : F) (v : List F)
        → zero_f ≼ q
        → q ≼ one_f
        → 0 < length v
        → length v < 2 ^ 512
        → (x : F) × (quantile q v ≡ ok x) × In x v
    unfolding quantile
    quantile-In q v low high some_values small =
        let (k, share) = share_pos q (length v) low high small in
        let (i, chosen, inside) = min-lt_length k (length v) some_values in
        let (x, e, m) = index-In v i inside in
        (
          x,
          ap (λ j. index v (min_ℤ j (pos (length v) -ℤ pos 1))) share ∙ ap (index v) chosen ∙ e,
          m,
        )

    share_low : (n : ℕ) → zero_f ≼ f.ratio n 100
    share_low n = ieee.ratio_le 0 1 n 100 (omega arith) (omega arith) (omega arith)

    share_high : (n : ℕ) → n ≤ 100 → f.ratio n 100 ≼ one_f
    share_high n h = ieee.ratio_le n 100 1 1 (omega arith) (omega arith) (omega arith)

    -- The three quantiles of a histogram that is not empty are there, and each of them is one of the
    -- values that were observed; the count is the number of values.
    pub summary_lines-In :
        (b : Builtins F) (key : MetricKey) (x : F) (xs : List F)
        → suc (length xs) < 2 ^ 512
        → (total p50 p95 p99 : F) × (summary_lines b key (x ∷ xs)
            ≡ ok (summary key (suc (length xs)) total p50 p95 p99))
          × All (λ p. In p (x ∷ xs)) (p50 ∷ p95 ∷ p99 ∷ [])
    summary_lines-In b key x xs small =
        let v = sort_onto (x ∷ xs) [] in
        let size = length-sorted (x ∷ xs) in
        let some_values : 0 < length v = omega (arith, size) in
        let few : length v < 2 ^ 512 = omega (arith, size, small) in
        let (p50, e50, m50) = index-In v (length v / 2) (omega (arith, size)) in
        let (p95, e95, m95) =
          quantile-In (f.ratio 95 100) v (share_low 95) (share_high 95 (omega arith)) some_values
            few in
        let (p99, e99, m99) =
          quantile-In (f.ratio 99 100) v (share_low 99) (share_high 99 (omega arith)) some_values
            few in
        let observed = In-sorted (x ∷ xs) in
        (
          b.sum v,
          p50,
          p95,
          p99,
          assembled b key x xs p50 p95 p99 size e50 e95 e99,
          (observed p50 m50, (observed p95 m95, (observed p99 m99, tt))),
        )
