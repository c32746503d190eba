-- ===== src/Main/Sends.antt =====
-- Which transactions the retry loop sends: at most one in each round, all for one target.
use event_time_mcdm_agent.Common.{
  ℕ, zero, suc, ℤ, ◌≡◌, refl, ◌∙◌, ap, List, [], ◌∷◌, Bool, true, false, ok, Exn, arith,
  if◌then◌else◌, nat_beq, Text,
}
use event_time_mcdm_agent.Common.Exec.{Exec, pure}
use event_time_mcdm_agent.Float.{Float}
use event_time_mcdm_agent.Config.{Config}
use event_time_mcdm_agent.Protocols.{ProtocolData}
use event_time_mcdm_agent.Signer.{EthAccount, Signed, sign_rebalance_params}
use event_time_mcdm_agent.Main.Backend.{Backend, Agent, Submission, Receipt}
use event_time_mcdm_agent.Main.Cycle.{
  Attempt, finished, again, smooth_one, smooth_all, sign, gas_limit_of, send, after_receipt,
  send_and_wait, on_send_error, attempt, submit, message, mentions_nonce, with_headroom,
  submission_of, resume,
}
use event_time_mcdm_agent.Main.Emits.{
  Grows-refl, Emits, bind-Emits, pure-Emits, on_world-Emits, catch-Emits, if-Emits,
}

-- The submission asks for a target.
abbrev pub IsFor : ℤ → Submission → Type 0
IsFor target t = t.signed.params.target_adapter_index ≡ target

module _ {F : Type 0} ⦃f : Float F⦄ {W : Type 0} where
  pub sent-smooth_all :
      (config : Config F) (ps : List (ProtocolData F)) (s : Agent F W)
      → (smooth_all config ps s).1.sent ≡ s.sent
  unfolding smooth_all smooth_one
  sent-smooth_all config [] s = refl
  sent-smooth_all config (p ∷ ps) s = sent-smooth_all config ps (smooth_one config p s).1

  module _ (config : Config F) (backend : Backend F W) (eth : EthAccount) where
    pub sign-IsFor :
        (target : ℤ) (nonce : ℕ) (s : Agent F W) (signed : Signed)
        → (sign config backend eth target nonce s).0 ≡ ok signed
        → signed.params.target_adapter_index ≡ target
    unfolding sign sign_rebalance_params
    sign-IsFor target nonce s signed e = ground arith

    module _ (P : Submission → Type 0) where
      pub silent_sign : (target : ℤ) (nonce : ℕ) → Emits P 0 (sign config backend eth target nonce)
      unfolding sign
      silent_sign target nonce s = Grows-refl P 0 s.sent

      silent_gas_limit : (signed : Signed) → Emits P 0 (gas_limit_of config backend eth signed)
      unfolding gas_limit_of
      silent_gas_limit signed =
          catch-Emits P 0 0 0 _ (λ e. pure config.gas_limit_fallback) (omega arith)
            (bind-Emits P 0 0 0 _ _ (omega arith) (on_world-Emits P 0 (backend.estimate_gas signed))
              (λ s x e. pure-Emits P 0 (with_headroom f x)))
            (λ e. pure-Emits P 0 config.gas_limit_fallback)

      silent_after_receipt :
          (nonce : ℕ) (receipt : Receipt)
          → Emits P 0 (after_receipt config backend eth nonce receipt)
      unfolding after_receipt
      silent_after_receipt nonce receipt =
          if-Emits P 0 (nat_beq receipt.status 1) _ _ (λ e. pure-Emits P 0 (finished true))
            (λ e.
              bind-Emits P 0 0 0 _ _ (omega arith) (on_world-Emits P 0 backend.rebalance_nonce)
                (λ s x h. pure-Emits P 0 (if nat_beq x nonce then finished false else again x)))

      silent_on_send_error : (e : Exn) → Emits P 0 (on_send_error config backend eth e)
      unfolding on_send_error
      silent_on_send_error e =
          if-Emits P 0 (mentions_nonce (message e)) _ _
            (λ h.
              bind-Emits P 0 0 0 _ _ (omega arith) (on_world-Emits P 0 backend.rebalance_nonce)
                (λ s x k. pure-Emits P 0 (again x)))
            (λ h. pure-Emits P 0 (finished false))

      pub send_one : (t : Submission) (raw : Text) → P t → Emits P 1 (send config backend eth t raw)
      unfolding send
      send_one t raw p s = record { new = t ∷ []; grown = refl; good = (p, tt); few = omega arith }

      send_and_wait-Emits :
          (gas nonce : ℕ) (signed : Signed) (limit : ℤ)
          → ((t : Submission) → t.signed ≡ signed → P t)
          → Emits P 1 (send_and_wait config backend eth gas nonce signed limit)
      unfolding send_and_wait
      send_and_wait-Emits gas nonce signed limit p =
          bind-Emits P 0 1 1 _ _ (omega arith)
            (on_world-Emits P 0 (backend.transaction_count signed.signer))
            λ s count _.
              bind-Emits P 0 1 1 _ _ (omega arith)
                (on_world-Emits P 0
                  (backend.build_transaction (submission_of signed limit gas count)))
                λ s tx _.
                  bind-Emits P 0 1 1 _ _ (omega arith)
                    (on_world-Emits P 0 (backend.sign_transaction tx config.private_key))
                    λ s raw _.
                      bind-Emits P 1 0 1 _ _ (omega arith) (send_one _ raw (p _ refl)) λ s hash _.
                        bind-Emits P 0 0 0 _ _ (omega arith)
                          (on_world-Emits P 0 (backend.wait_for_receipt hash))
                          λ s receipt _. silent_after_receipt nonce receipt

    attempt-Emits :
        (target : ℤ) (gas nonce : ℕ)
        → Emits (IsFor target) 1 (attempt config backend eth target gas nonce)
    unfolding attempt
    attempt-Emits target gas nonce =
        let P = IsFor target in
        bind-Emits P 0 1 1 _ _ (omega arith) (silent_sign P target nonce) λ s signed e.
          bind-Emits P 0 1 1 _ _ (omega arith) (on_world-Emits P 0 (backend.rebalance_call signed))
            λ t _ _. bind-Emits P 0 1 1 _ _ (omega arith) (silent_gas_limit P signed) λ s' limit _.
              catch-Emits P 1 0 1 _ _ (omega arith)
                (send_and_wait-Emits P gas nonce signed limit (λ t h.
                  ap (λ (x : Signed). x.params.target_adapter_index) h
                  ∙ sign-IsFor target nonce s signed e))
                (silent_on_send_error P)

    resume-Emits :
        (P : Submission → Type 0) (n : ℕ) (next : ℕ → Exec (Agent F W) Bool) (outcome : Attempt)
        → ((nonce : ℕ) → Emits P n (next nonce))
        → Emits P n (resume next outcome)
    unfolding resume
    resume-Emits P n next (finished done) h = pure-Emits P n done
    resume-Emits P n next (again nonce) h = h nonce

    -- In the rounds left, the retry loop hands at most one transaction a round to the chain, and each
    -- of them asks for the given target.
    pub submit-Emits :
        (left : ℕ) (target : ℤ) (gas nonce : ℕ)
        → Emits (IsFor target) left (submit config backend eth left target gas nonce)
    unfolding submit
    submit-Emits zero target gas nonce = pure-Emits (IsFor target) 0 false
    submit-Emits (suc left) target gas nonce =
        bind-Emits (IsFor target) 1 left (suc left) _ _ (omega arith)
          (attempt-Emits target gas nonce)
          λ s outcome e.
            resume-Emits (IsFor target) left (submit config backend eth left target gas) outcome
              (λ nonce'. submit-Emits left target gas nonce')
