-- ===== src/Smoke/Tests.antt =====
-- The smoke check of two different keys on a chain that answers every call.
use event_time_mcdm_agent.Common.{◌↔◌, ℕ, ◌≡◌, refl, true, ok}
use event_time_mcdm_agent.Common.Exec.{bind}
use event_time_mcdm_agent.Float.Decimal.{Decimal, decimal_float}
use event_time_mcdm_agent.Mempool.{Net, new_mempool, submit_private_tx, build_post, deliver}
use event_time_mcdm_agent.Mempool.Tests.{ports, quiet}
use event_time_mcdm_agent.Smoke.{
  SmokeArgs, asks_help, parsed, smoke_main, smoke_run, check_submission, dummy_state, exit_code,
}
use event_time_mcdm_agent.Smoke.Exit.{smoke_main_fails}

abbrev keys : SmokeArgs
keys = record { auth_key = "auth"; wallet_key = "wallet"; rpc_url = "http://localhost" }

abbrev ends : ℕ × Net ℕ
ends =
    smoke_main ports (λ a. a) Decimal (λ w. (7, w)) (λ state. ok tt) (λ url. true) (parsed keys)
      quiet

ends_with_four : ends.0 ≡ 4
unfolding smoke_main smoke_run check_submission dummy_state exit_code new_mempool submit_private_tx
    build_post deliver bind
ends_with_four = refl

smoke_main_fails_example : (ends.0 ≡ 0) ↔ (parsed keys ≡ asks_help)
smoke_main_fails_example =
    smoke_main_fails ports (λ a. a) Decimal (λ w. (7, w)) (λ state. ok tt) (λ url. true)
      (parsed keys) quiet
