-- ===== src/Scoring/Tests.antt =====
-- `evaluate` at concrete data, and the theorems at inputs that meet their hypotheses.
use event_time_mcdm_agent.Common.{
  ℕ, ◌*◌, ◌^◌, ℤ, pos, ◌≡◌, refl, none, some, List, [], ◌∷◌, ok, false,
}
use event_time_mcdm_agent.Float.{◌≼◌}
use event_time_mcdm_agent.Float.Decimal.{
  Decimal, num, not_a_number, infinity, decimal_float, Decimal-IsIeee, ratio_decimal,
}
use event_time_mcdm_agent.Config.{Config}
use event_time_mcdm_agent.Scoring.{ProtocolInput, ScoringDecision, score_protocol, choose, evaluate}
use event_time_mcdm_agent.Scoring.Bounds.{IsUnit, score_protocol_bounds}
use event_time_mcdm_agent.Scoring.Order.{IsWeighted, score_protocol_mono}
use event_time_mcdm_agent.Scoring.Decide.{IsSound, evaluate-IsSound}

abbrev pub cents : ℕ → Decimal
cents n = num (pos (n * 10 ^ 28))

abbrev pub defaults : Config Decimal
defaults = record {
  rpc_url = "http://localhost:8545";
  private_key = "0x01";
  vault_address = "0x02";
  strategy_manager_address = "0x03";
  check_interval_seconds = pos 3600;
  score_threshold = cents 5;
  max_loss_bps = pos 50;
  ema_alpha = cents 30;
  max_block_age_seconds = pos 180;
  gas_limit_fallback = pos 500000;
  nonce_retry_limit = pos 3;
  weight_apy = cents 40;
  weight_risk = cents 25;
  weight_cost = cents 20;
  weight_stability = cents 15;
}

-- Aave pays 4 % at 80 % utilization, Compound 9 % at 60 %.
abbrev pub markets : List (ProtocolInput Decimal)
markets =
    record {
      adapter_index = pos 0;
      name = "Aave V3";
      apy = cents 4;
      utilization = cents 80;
      tvl_delta = none;
    }
    ∷ record {
      adapter_index = pos 1;
      name = "Compound V3";
      apy = cents 9;
      utilization = cents 60;
      tvl_delta = some (cents 2);
    }
    ∷ []

unfoldable outcome : ℤ → ScoringDecision Decimal
outcome index = elim (evaluate defaults markets index (cents 0)) [
  | ok d ↦ d
  | _ ↦ record {
    should_rebalance = false;
    current_index = index;
    target_index = index;
    current_score = cents 0;
    target_score = cents 0;
    score_delta = cents 0;
    scores = [];
  }
]

returns :
    (evaluate defaults markets (pos 0) (cents 0) ≡ ok (outcome (pos 0)))
    × (evaluate defaults markets (pos 1) (cents 0) ≡ ok (outcome (pos 1)))
unfolding outcome evaluate choose
returns = (refl, refl)

evaluate-IsSound_example : IsSound defaults (pos 0) (outcome (pos 0))
evaluate-IsSound_example =
    evaluate-IsSound Decimal-IsIeee defaults markets (pos 0) (cents 0) (outcome (pos 0)) returns.0

score_protocol_bounds_example :
    let s = score_protocol defaults not_a_number (cents 250) infinity (cents 4) in
    IsUnit s.apy_score × IsUnit s.risk_score × IsUnit s.cost_score × IsUnit s.stability_score
score_protocol_bounds_example =
    score_protocol_bounds Decimal-IsIeee defaults not_a_number (cents 250) infinity (cents 4)

defaults-IsWeighted : IsWeighted defaults
unfolding ratio_decimal
defaults-IsWeighted = record {
  apy = (refl, refl);
  risk = (refl, refl);
  cost = (refl, refl);
  stability = (refl, refl);
}

score_protocol_mono_example :
    (score_protocol defaults (cents 3) (cents 90) (cents 1) (cents 0)).total_score
    ≼ (score_protocol defaults (cents 5) (cents 70) (cents 0) (cents 2)).total_score
score_protocol_mono_example =
    score_protocol_mono Decimal-IsIeee defaults (cents 3) (cents 5) (cents 90) (cents 70) (cents 1)
      (cents 0) (cents 0) (cents 2) defaults-IsWeighted refl refl refl refl refl refl
