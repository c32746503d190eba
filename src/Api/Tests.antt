-- ===== src/Api/Tests.antt =====
-- Requests to a server on the chain and the readers of the agent's tests.
use event_time_mcdm_agent.Common.{
  ℕ, ◌^◌, ℤ, pos, ◌≡◌, refl, Option, none, [], ◌∷◌, true, false, String, ok, int_eq, string_eq,
}
use event_time_mcdm_agent.Float.Decimal.{Decimal, decimal_float}
use event_time_mcdm_agent.Scoring.Tests.{defaults}
use event_time_mcdm_agent.Signer.Tests.{account}
use event_time_mcdm_agent.Main.Backend.{Backend}
use event_time_mcdm_agent.Main.Emits.{Grows}
use event_time_mcdm_agent.Main.Cycle.{observe}
use event_time_mcdm_agent.Main.Tests.{chain, market, readers, start}
use event_time_mcdm_agent.Api.{Views, score_protocols, trigger_rebalance}
use event_time_mcdm_agent.Api.Agreement.{decision_of, score_protocols-eq-observe}
use event_time_mcdm_agent.Api.Rebalance.{IsAsked, trigger_rebalance-Emits}

abbrev views : Views ℕ
views = record {
  is_connected = λ w. (ok true, w);
  total_assets = λ w. (ok 0, w);
  total_supply = λ w. (ok 0, w);
  has_active_strategy = λ w. (ok true, w);
  paused = λ w. (ok false, w);
  last_rebalance_timestamp = λ w. (ok 0, w);
  keeper = λ w. (ok "0xsigner", w);
  convert_to_assets = λ n w. (ok n, w);
}

abbrev steady : Backend Decimal ℕ
steady = record chain { rebalance_nonce = λ w. (ok 4, w) }

score_protocols-eq-observe_example :
    let observed = observe defaults steady account (market (pos 0) 4 ∷ []) start in
    let scored = score_protocols defaults steady views account (market (pos 0) 4 ∷ []) start in
    (decision_of observed.0 ≡ scored.0) × (observed.1 ≡ scored.1)
score_protocols-eq-observe_example =
    score_protocols-eq-observe defaults steady views account (market (pos 0) 4) [] start (10 ^ 9) 0
      4 (λ w. refl) (λ w. refl) (λ w. refl)

-- No text is a number.
abbrev no_int : String → Option ℤ
no_int name = none

trigger_rebalance-Emits_example :
    Grows
      (IsAsked defaults chain views account readers start)
      1
      []
      (trigger_rebalance defaults chain views account no_int readers false start).1.sent
trigger_rebalance-Emits_example =
    trigger_rebalance-Emits defaults chain views account no_int readers false start
