-- ===== src/Scoring.antt =====
-- agent/scoring.py: the multi-criteria score of a protocol and the decision to rebalance.
pub mod Select
pub mod Order
pub mod Bounds
pub mod Decide
pub mod Tests
use event_time_mcdm_agent.Common.{
  ℤ, negsuc, ◌≡◌, Bool, ◌&&◌, not, Option, none, some, List, [], ◌∷◌, map, String, Result, ok,
  raised, value_error, if◌then◌else◌, ◌==◌, int_eq,
}
use event_time_mcdm_agent.Float.{Float, zero_f, one_f, min_f, max_f}
use event_time_mcdm_agent.Config.{Config}

pub record ProtocolScore (F : Type 0) : Type 0 where
  pub adapter_index : ℤ
  pub name : String
  pub apy_score : F
  pub risk_score : F
  pub cost_score : F
  pub stability_score : F
  pub total_score : F

pub record ScoringDecision (F : Type 0) : Type 0 where
  pub should_rebalance : Bool
  pub current_index : ℤ
  pub target_index : ℤ
  pub current_score : F
  pub target_score : F
  pub score_delta : F
  pub scores : List (ProtocolScore F)

-- One dict of the list that `evaluate` takes; the key `tvl_delta` may be missing.
pub record ProtocolInput (F : Type 0) : Type 0 where
  pub adapter_index : ℤ
  pub name : String
  pub apy : F
  pub utilization : F
  pub tvl_delta : Option F

module _ {F : Type 0} ⦃f : Float F⦄ where
  unfoldable pub normalize : F → F → F → F
  normalize value min_val max_val =
      if f.le max_val min_val
      then zero_f
      else let clamped = max_f min_val (min_f value max_val) in
        f.div (f.sub clamped min_val) (f.sub max_val min_val)

  -- The four factors of `score_protocol`, before rounding; the limits are its default arguments.
  unfoldable pub apy_factor : F → F
  apy_factor apy = normalize apy zero_f (f.ratio 20 100)

  unfoldable pub risk_factor : F → F
  risk_factor utilization = f.sub one_f (normalize utilization zero_f one_f)

  unfoldable pub cost_factor : F → F
  cost_factor gas_cost_eth = f.sub one_f (normalize gas_cost_eth zero_f (f.ratio 1 100))

  unfoldable pub stability_factor : F → F
  stability_factor tvl_delta_pct =
      f.sub one_f (normalize (max_f zero_f (f.neg tvl_delta_pct)) zero_f (f.ratio 30 100))

  unfoldable pub total : Config F → F → F → F → F → F
  total config apy risk cost stability =
      f.add
        (f.add (f.add (f.mul config.weight_apy apy) (f.mul config.weight_risk risk))
          (f.mul config.weight_cost cost))
        (f.mul config.weight_stability stability)

  unfoldable pub score_protocol : Config F → F → F → F → F → ProtocolScore F
  score_protocol config apy utilization gas_cost_eth tvl_delta_pct =
      let apy_score = apy_factor apy in
      let risk_score = risk_factor utilization in
      let cost_score = cost_factor gas_cost_eth in
      let stability_score = stability_factor tvl_delta_pct in
      record {
        adapter_index = negsuc 0;
        name = "";
        apy_score = f.round apy_score 4;
        risk_score = f.round risk_score 4;
        cost_score = f.round cost_score 4;
        stability_score = f.round stability_score 4;
        total_score = f.round (total config apy_score risk_score cost_score stability_score) 4;
      }

  abbrev pub or_zero : Option F → F
  or_zero none = zero_f
  or_zero (some x) = x

  -- The body of the loop of `evaluate`.
  unfoldable pub score_input : Config F → F → ProtocolInput F → ProtocolScore F
  score_input config gas_cost_eth p =
      record (score_protocol config p.apy p.utilization gas_cost_eth (or_zero p.tvl_delta)) {
        adapter_index = p.adapter_index;
        name = p.name;
      }

  -- One step of Python's `max(scores, key=…)`: a later score wins only if it is greater.
  unfoldable pub better : ProtocolScore F → ProtocolScore F → ProtocolScore F
  better best s = if f.lt best.total_score s.total_score then s else best

  -- `max` from the first score on.
  unfoldable pub best_from : ProtocolScore F → List (ProtocolScore F) → ProtocolScore F
  best_from best [] = best
  best_from best (s ∷ rest) = best_from (better best s) rest

  -- next((s for s in scores if s.adapter_index == current), default)
  unfoldable pub find_score : ℤ → ProtocolScore F → List (ProtocolScore F) → ProtocolScore F
  find_score index default [] = default
  find_score index default (s ∷ rest) =
      if s.adapter_index == index then s else find_score index default rest

  unfoldable pub decide :
      Config F → ℤ → List (ProtocolScore F) → ProtocolScore F → ProtocolScore F → ScoringDecision F
  decide config current_adapter_index scores best current =
      let delta = f.sub best.total_score current.total_score in
      record {
        should_rebalance =
            f.le config.score_threshold delta && not (best.adapter_index == current_adapter_index);
        current_index = current_adapter_index;
        target_index = best.adapter_index;
        current_score = current.total_score;
        target_score = best.total_score;
        score_delta = f.round delta 4;
        scores = scores;
      }

  -- `max` of no scores is a ValueError.
  unfoldable pub choose : Config F → ℤ → List (ProtocolScore F) → Result (ScoringDecision F)
  choose config current_adapter_index [] = raised value_error
  choose config current_adapter_index (s ∷ rest) = ok (
      decide config current_adapter_index (s ∷ rest) (best_from s rest)
        (find_score current_adapter_index s (s ∷ rest)))

  unfoldable pub evaluate : Config F → List (ProtocolInput F) → ℤ → F → Result (ScoringDecision F)
  unfolding choose
  evaluate config protocols current_adapter_index gas_cost_eth =
      choose config current_adapter_index (map (score_input config gas_cost_eth) protocols)
