-- ===== src/Smoke/Exit.antt =====
-- The smoke check cannot succeed: a dry run returns a text, and the script asks for a dict.
use event_time_mcdm_agent.Common.{
  ℕ, ◌≡◌, refl, ◌⊎◌, ◌↔◌, sym, ◌∙◌, String, Bool, true, false, Result, raised, ◌≢◌, arith, ok,
  ok_injective, subst, string_eq, ◌==◌, inl, inr, if◌then◌else◌,
}
use event_time_mcdm_agent.Common.Exec.{pure, bind-eq-ok}
use event_time_mcdm_agent.Float.{Float}
use event_time_mcdm_agent.PerBlockLoop.{BlockState}
use event_time_mcdm_agent.Mempool.{Json, Post, RelayPorts, Net, deliver, submit_private_tx}
use event_time_mcdm_agent.Mempool.Submit.{new_mempool_lem}
use event_time_mcdm_agent.Smoke.{
  Parsed, asks_help, refused, parsed, exit_code, check_submission, smoke_run, status, smoke_main,
}

module _ {R W : Type 0} (ports : RelayPorts R W) where
  code_of_dry_run :
      (b : Bool) (post : Post) (s : Net W) (result : Json)
      → b ≡ true
      → (deliver ports b post s).0 ≡ ok result
      → exit_code result ≡ 4
  unfolding deliver exit_code
  code_of_dry_run true post s result e h = subst (λ r. exit_code r ≡ 4) (ok_injective _ _ h) refl
  code_of_dry_run false post s result e h = cc

  module _ (lower : String → String) (F : Type 0) ⦃f : Float F⦄ (utcnow : W → ℕ × W)
      (new_state : BlockState F → Result (Unit {0})) where
    code-check_submission :
        (auth_key wallet_key : String) (s : Net W) (code : ℕ)
        → (check_submission ports lower F utcnow new_state auth_key wallet_key s).0 ≡ ok code
        → code ≡ 4
    unfolding check_submission submit_private_tx
    code-check_submission auth_key wallet_key s code h =
        let (client, e1, h1) = bind-eq-ok _ _ _ h in
        let (block, e2, h2) = bind-eq-ok _ _ _ h1 in
        let (now, e3, h3) = bind-eq-ok _ _ _ h2 in
        let (checked, e4, h4) = bind-eq-ok _ _ _ h3 in
        let (result, e5, h5) = bind-eq-ok _ _ _ h4 in
        let (post, e6, h6) = bind-eq-ok _ _ _ e5 in
        let made = new_mempool_lem ports auth_key wallet_key _ true 25 client e1 in
        sym (ok_injective _ _ h5) ∙ code_of_dry_run client.dry_run post _ result made.3 h6

    judged :
        (b : Bool) (auth_key wallet_key : String) (s : Net W) (code : ℕ)
        → ((if b
              then pure 3
              else check_submission ports lower F utcnow new_state auth_key wallet_key)
            s).0
          ≡ ok code
        → (code ≡ 3) ⊎ (code ≡ 4)
    judged true auth_key wallet_key s code h = inl (sym (ok_injective _ _ h))
    judged false auth_key wallet_key s code h =
        inr (code-check_submission auth_key wallet_key s code h)

    -- Once connected, whenever the script returns a code, it is 3 or 4.
    smoke_run_fails :
        (auth_key wallet_key : String) (s : Net W) (code : ℕ)
        → (smoke_run ports lower F utcnow new_state true auth_key wallet_key s).0 ≡ ok code
        → (code ≡ 3) ⊎ (code ≡ 4)
    unfolding smoke_run
    smoke_run_fails auth_key wallet_key s code h =
        let (auth, e1, h1) = bind-eq-ok _ _ _ h in
        let (wallet, e2, h2) = bind-eq-ok _ _ _ h1 in
        judged (lower auth == lower wallet) auth_key wallet_key _ code h2

    not_zero : (code : ℕ) → (code ≡ 3) ⊎ (code ≡ 4) → code ≢ 0
    not_zero code h e = omega (arith, h)

    run_not_zero :
        (b : Bool) (auth_key wallet_key : String) (s : Net W) (r : Result ℕ)
        → (smoke_run ports lower F utcnow new_state b auth_key wallet_key s).0 ≡ r
        → status ports lower F utcnow new_state r ≢ 0
    unfolding smoke_run
    run_not_zero b auth_key wallet_key s (raised e) h = λ zero. absurd (omega (arith, zero))
    run_not_zero true auth_key wallet_key s (ok code) h =
        not_zero code (smoke_run_fails auth_key wallet_key s code h)
    run_not_zero false auth_key wallet_key s (ok code) h =
        λ zero. absurd (omega (arith, ok_injective _ _ h, zero))

    -- Whatever its arguments, the chain and the relay are, the script ends with status 0 exactly if
    -- it was asked for its help: no check that it makes ever succeeds.
    pub smoke_main_fails :
        (connects : String → Bool) (args : Parsed) (s : Net W)
        → ((smoke_main ports lower F utcnow new_state connects args s).0 ≡ 0) ↔ (args ≡ asks_help)
    unfolding smoke_main
    smoke_main_fails connects asks_help s = (λ zero. refl, λ e. refl)
    smoke_main_fails connects refused s = (λ zero. absurd (omega (arith, zero)), λ e. cc)
    smoke_main_fails connects (parsed args) s = (
      λ zero.
          absurd (run_not_zero (connects args.rpc_url) args.auth_key args.wallet_key s _ refl zero),
      λ e. cc,
    )
