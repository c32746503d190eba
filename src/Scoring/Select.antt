-- ===== src/Scoring/Select.antt =====
-- Which protocol `evaluate` takes as the target, and which score stands for the current one.
use event_time_mcdm_agent.Common.{
  ℤ, ◌≡◌, sym, subst, refl, ◌∙◌, ◌≢◌, ◌⊎◌, inl, inr, true, false, List, [], ◌∷◌, All, In,
  Bool-cases, arith, ◌==◌, int_eq, same→eq, int_beq_iff,
}
use event_time_mcdm_agent.Float.{Float}
use event_time_mcdm_agent.Float.Laws.{IsIeee}
use event_time_mcdm_agent.Scoring.{ProtocolScore, better, best_from, find_score}

module _ {F : Type 0} ⦃f : Float F⦄ where
  -- No score of the list beats the given one.
  abbrev pub Beats : F → List (ProtocolScore F) → Type 0
  Beats top = All λ s. f.lt top s.total_score ≡ false

  better_cases : (best s : ProtocolScore F) → (better best s ≡ best) ⊎ (better best s ≡ s)
  unfolding better
  better_cases best s = ground arith

  pub best_from-In :
      (best : ProtocolScore F) (rest : List (ProtocolScore F))
      → In (best_from best rest) (best ∷ rest)
  unfolding best_from
  best_from-In best [] = inl refl
  best_from-In best (s ∷ rest) = elim (best_from-In (better best s) rest) [
    | inl h ↦ elim (better_cases best s) [ inl e ↦ inl (h ∙ e) | inr e ↦ inr (inl (h ∙ e)) ]
    | inr h ↦ inr (inr h)
  ]

  module _ (laws : IsIeee F) where
    open laws use {le_trans, le_total, le_number, lt_iff_le}

    better-not_lt :
        (best s : ProtocolScore F) (x : F)
        → f.lt best.total_score x ≡ false
        → f.lt (better best s).total_score x ≡ false
    unfolding better
    better-not_lt best s x h =
        let a = best.total_score in
        let b = s.total_score in
        ground (
          arith,
          lt_iff_le a b,
          lt_iff_le a x,
          lt_iff_le b x,
          le_number a b,
          le_number b x,
          le_total a x,
          le_trans b x a,
          le_trans a b x,
        )

    better-beats_both :
        (best s : ProtocolScore F)
        → (f.lt (better best s).total_score best.total_score ≡ false)
          × (f.lt (better best s).total_score s.total_score ≡ false)
    unfolding better
    better-beats_both best s =
        let a = best.total_score in
        let b = s.total_score in
        ground (arith, lt_iff_le a b, lt_iff_le b a, lt_iff_le a a, lt_iff_le b b)

    -- What the loop has seen stays beaten.
    best_from-not_lt :
        (best : ProtocolScore F) (rest : List (ProtocolScore F)) (x : F)
        → f.lt best.total_score x ≡ false
        → f.lt (best_from best rest).total_score x ≡ false
    unfolding best_from
    best_from-not_lt best [] x h = h
    best_from-not_lt best (s ∷ rest) x h =
        best_from-not_lt (better best s) rest x (better-not_lt best s x h)

    pub best_from-Beats :
        (best : ProtocolScore F) (rest : List (ProtocolScore F))
        → Beats (best_from best rest).total_score (best ∷ rest)
    unfolding best_from
    best_from-Beats best [] = (ground (arith, lt_iff_le best.total_score best.total_score), tt)
    best_from-Beats best (s ∷ rest) =
        let (old, new) = better-beats_both best s in
        (
          best_from-not_lt (better best s) rest best.total_score old,
          (
            best_from-not_lt (better best s) rest s.total_score new,
            (best_from-Beats (better best s) rest).1,
          ),
        )

  find_score_hit :
      (index : ℤ) (default s : ProtocolScore F) (rest : List (ProtocolScore F))
      → (s.adapter_index == index) ≡ true
      → find_score index default (s ∷ rest) ≡ s
  unfolding find_score
  find_score_hit index default s rest e = rw e

  find_score_miss :
      (index : ℤ) (default s : ProtocolScore F) (rest : List (ProtocolScore F))
      → (s.adapter_index == index) ≡ false
      → find_score index default (s ∷ rest) ≡ find_score index default rest
  unfolding find_score
  find_score_miss index default s rest e = rw e

  find_score_nil : (index : ℤ) (default : ProtocolScore F) → find_score index default [] ≡ default
  unfolding find_score
  find_score_nil index default = refl

  -- Where the score of the current adapter comes from: it is listed under the index, or no score is
  -- and the default stands for it.
  abbrev pub StandsFor : ℤ → ProtocolScore F → List (ProtocolScore F) → ProtocolScore F → Type 0
  StandsFor index default scores s =
      (In s scores × (s.adapter_index ≡ index))
      ⊎ ((s ≡ default) × All (λ t. t.adapter_index ≢ index) scores)

  StandsFor-cons :
      (index : ℤ) (default t : ProtocolScore F) (rest : List (ProtocolScore F))
      (s : ProtocolScore F)
      → t.adapter_index ≢ index
      → StandsFor index default rest s
      → StandsFor index default (t ∷ rest) s
  StandsFor-cons index default t rest s ne (inl h) = inl (inr h.0, h.1)
  StandsFor-cons index default t rest s ne (inr h) = inr (h.0, (ne, h.1))

  pub find_score-StandsFor :
      (index : ℤ) (default : ProtocolScore F) (scores : List (ProtocolScore F))
      → StandsFor index default scores (find_score index default scores)
  find_score-StandsFor index default [] = inr (find_score_nil index default, tt)
  find_score-StandsFor index default (s ∷ rest) = elim (Bool-cases (s.adapter_index == index)) [
    | inl e ↦
        subst (StandsFor index default (s ∷ rest)) (sym (find_score_hit index default s rest e))
          (inl (inl refl, same→eq s.adapter_index index e))
    | inr e ↦
        subst (StandsFor index default (s ∷ rest)) (sym (find_score_miss index default s rest e)) (
          StandsFor-cons index default s rest (find_score index default rest)
            (λ same. ground (arith, int_beq_iff s.adapter_index index))
            (find_score-StandsFor index default rest))
  ]
