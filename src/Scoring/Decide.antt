-- ===== src/Scoring/Decide.antt =====
-- What `evaluate` decides, on every list of protocols.
use event_time_mcdm_agent.Common.{
  ℤ, ◌≡◌, refl, ◌↔◌, ◌≢◌, ◌⊎◌, inl, inr, true, List, [], ◌∷◌, map, All, In, arith, ok, int_eq,
  int_beq_iff, subst, ok_injective,
}
use event_time_mcdm_agent.Float.{Float, ◌≼◌}
use event_time_mcdm_agent.Float.Laws.{IsIeee}
use event_time_mcdm_agent.Config.{Config}
use event_time_mcdm_agent.Scoring.{
  ProtocolScore, ProtocolInput, ScoringDecision, best_from, find_score, decide, evaluate,
  score_input,
}
use event_time_mcdm_agent.Scoring.Select.{
  Beats, best_from-In, best_from-Beats, StandsFor, find_score-StandsFor,
}

module _ {F : Type 0} ⦃f : Float F⦄ where
  -- What a decision says of the scores that it carries.
  pub record IsSound (config : Config F) (index : ℤ) (d : ScoringDecision F) : Type 0 where
    pub target : ProtocolScore F
    pub target_listed : In target d.scores
    pub target_is : (d.target_index ≡ target.adapter_index) × (d.target_score ≡ target.total_score)
    pub target_best : Beats d.target_score d.scores
    pub current : ProtocolScore F
    pub current_is : (d.current_index ≡ index) × (d.current_score ≡ current.total_score)
    pub current_listed :
        (In current d.scores × (current.adapter_index ≡ index))
        ⊎ All (λ s. s.adapter_index ≢ index) d.scores
    pub rebalances_iff : (d.should_rebalance ≡ true) ↔ (
        (config.score_threshold ≼ f.sub d.target_score d.current_score) × (d.target_index ≢ index))

  rebalance_iff :
      (config : Config F) (index : ℤ) (scores : List (ProtocolScore F)) (b c : ProtocolScore F)
      → let d = decide config index scores b c in
        (d.should_rebalance ≡ true) ↔ (
          (config.score_threshold ≼ f.sub d.target_score d.current_score)
          × (d.target_index ≢ index))
  unfolding decide
  rebalance_iff config index scores b c = ground (arith, int_beq_iff b.adapter_index index)

  weaken :
      (index : ℤ) (default : ProtocolScore F) (scores : List (ProtocolScore F))
      (s : ProtocolScore F)
      → StandsFor index default scores s
      → (In s scores × (s.adapter_index ≡ index)) ⊎ All (λ t. t.adapter_index ≢ index) scores
  weaken index default scores s (inl h) = inl h
  weaken index default scores s (inr h) = inr h.1

  decide-IsSound :
      (laws : IsIeee F) (config : Config F) (index : ℤ) (s : ProtocolScore F)
      (rest : List (ProtocolScore F))
      → IsSound config index
          (decide config index (s ∷ rest) (best_from s rest) (find_score index s (s ∷ rest)))
  unfolding decide
  decide-IsSound laws config index s rest =
      let b = best_from s rest in
      let c = find_score index s (s ∷ rest) in
      record {
        target = b;
        target_listed = best_from-In s rest;
        target_is = (refl, refl);
        target_best = best_from-Beats laws s rest;
        current = c;
        current_is = (refl, refl);
        current_listed = weaken index s (s ∷ rest) c (find_score-StandsFor index s (s ∷ rest));
        rebalances_iff = rebalance_iff config index (s ∷ rest) b c;
      }

  -- Whenever `evaluate` returns, the target is listed under its index with its score and no listed
  -- score exceeds it; the current score is the one listed under the current index, if that index is
  -- listed; and a rebalance is advised exactly when the difference of the two scores reaches the
  -- threshold and the target is not the current adapter.
  pub evaluate-IsSound :
      (laws : IsIeee F) (config : Config F) (protocols : List (ProtocolInput F)) (index : ℤ)
      (gas_cost_eth : F) (d : ScoringDecision F)
      → evaluate config protocols index gas_cost_eth ≡ ok d
      → IsSound config index d
  unfolding evaluate
  evaluate-IsSound laws config [] index gas_cost_eth d e = cc
  evaluate-IsSound laws config (p ∷ ps) index gas_cost_eth d e =
      subst (IsSound config index) (ok_injective _ _ e) (
        decide-IsSound laws config index (score_input config gas_cost_eth p)
          (map (score_input config gas_cost_eth) ps))
