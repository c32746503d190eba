-- ===== src/Main/Cycle.antt =====
-- The cycle itself.
use event_time_mcdm_agent.Common.{
  ℕ, zero, suc, ◌+◌, ◌*◌, ◌^◌, ℤ, pos, pos_part, Option, none, some, List, [], ◌∷◌, Text, Bool,
  true, false, not, ◌&&◌, ◌||◌, Result, ok, raised, Exn, external, if◌then◌else◌, nat_beq, leb,
  int_eq,
}
use event_time_mcdm_agent.Common.Dict.{lookup, insert}
use event_time_mcdm_agent.Common.Exec.{Exec, pure, lift, catch, ◌>>◌, ◌>>=◌}
use event_time_mcdm_agent.Float.{Float}
use event_time_mcdm_agent.Config.{Config}
use event_time_mcdm_agent.Protocols.{ProtocolData, ratio_int}
use event_time_mcdm_agent.DataReader.{Reader, read_all, get_tvl_delta, block_age_seconds}
use event_time_mcdm_agent.Scoring.{ProtocolInput, ScoringDecision, evaluate}
use event_time_mcdm_agent.Signer.{EthAccount, Signed, sign_rebalance_params}
use event_time_mcdm_agent.Main.Backend.{Backend, Agent, Submission, Receipt, on_world}

-- The text of an exception, `str(e)`; only the text of an external one is looked at.
abbrev pub message : Exn → Text
message (external t) = t
message _ = []

unfoldable pub lower : ℕ → ℕ
lower c = if leb b'A' c && leb c b'Z' then c + 32 else c

unfoldable pub starts_with : Text → Text → Bool
starts_with [] text = true
starts_with (p ∷ ps) [] = false
starts_with (p ∷ ps) (c ∷ cs) = nat_beq p (lower c) && starts_with ps cs

unfoldable pub contains : Text → Text → Bool
contains p [] = starts_with p []
contains p (c ∷ cs) = starts_with p (c ∷ cs) || contains p cs

-- "nonce" in err_text.lower()
unfoldable pub mentions_nonce : Text → Bool
unfolding lower starts_with contains
mentions_nonce = contains (b'n' ∷ b'o' ∷ b'n' ∷ b'c' ∷ b'e' ∷ [])

-- How an attempt to submit ends: `return`, or `continue` with a nonce that was read again.
pub data Attempt : Type 0 where
  finished : Bool → Attempt
  again : ℕ → Attempt

-- What is known when the decision is taken.
pub record Decided (F : Type 0) : Type 0 where
  pub decision : ScoringDecision F
  pub nonce : ℕ
  pub gas_price_wei : ℕ

abbrev pub as_action {ℓ} : {A S : Type ℓ} → (S → A × S) → Exec S A
as_action m s = let (a, s') = m s in (ok a, s')

-- int(gas_estimate * 1.20)
unfoldable pub with_headroom : {F : Type 0} → Float F → ℕ → ℤ
with_headroom f gas_estimate = f.truncate (f.mul (f.ratio gas_estimate 1) (f.ratio 120 100))

-- The fields that `build_transaction` is given.
abbrev pub submission_of : Signed → ℤ → ℕ → ℕ → Submission
submission_of signed gas_limit gas_price_wei account_nonce = record {
  signed = signed;
  account_nonce = account_nonce;
  gas = gas_limit;
  max_fee_per_gas = gas_price_wei * 2;
  max_priority_fee_per_gas = 10 ^ 9;
}

module _ {F : Type 0} ⦃f : Float F⦄ where
  unfoldable pub ema_smooth : F → Option F → F → F
  ema_smooth current none alpha = current
  ema_smooth current (some previous) alpha =
      f.add (f.mul alpha current) (f.mul (f.sub (f.ratio 1 1) alpha) previous)

  -- (gas_price_wei * 200_000) / 1e18
  unfoldable pub rebalance_cost_eth : ℕ → F
  rebalance_cost_eth gas_price_wei =
      f.div (f.ratio (gas_price_wei * 200_000) 1) (f.ratio (10 ^ 18) 1)

  module _ {W : Type 0} where
    -- The body of the smoothing loop for one protocol.
    unfoldable pub smooth_one : Config F → ProtocolData F → Agent F W → ProtocolInput F × Agent F W
    smooth_one config p s =
        let smoothed =
          ema_smooth p.apy (lookup p.adapter_index s.smoothed_rates) config.ema_alpha in
        let (tvl_delta, prev_tvl) = get_tvl_delta p s.prev_tvl in
        (
          record {
            adapter_index = p.adapter_index;
            name = p.name;
            apy = smoothed;
            utilization = p.utilization;
            tvl_delta = some tvl_delta;
          },
          record s {
            smoothed_rates = insert p.adapter_index smoothed s.smoothed_rates;
            prev_tvl = prev_tvl;
          },
        )

    unfoldable pub smooth_all :
        Config F → List (ProtocolData F) → Agent F W → List (ProtocolInput F) × Agent F W
    smooth_all config [] s = ([], s)
    smooth_all config (p ∷ ps) s =
        let (input, s') = smooth_one config p s in
        let (rest, s'') = smooth_all config ps s' in (input ∷ rest, s'')

    -- `return`, or the next round with the nonce that was read again.
    unfoldable pub resume : (ℕ → Exec (Agent F W) Bool) → Attempt → Exec (Agent F W) Bool
    resume next (finished done) = pure done
    resume next (again new_nonce) = next new_nonce

    module _ (config : Config F) (backend : Backend F W) (eth : EthAccount) where
      -- Step 0: the age of the latest block; a failure of the call counts as infinitely old.
      unfoldable pub block_age : Exec (Agent F W) F
      block_age s =
          let (latest, w) = backend.latest_timestamp s.world in
          let (now, w') = aged latest w in
          (ok (block_age_seconds latest now), record s { world = w' })
        where
          aged : Result ℕ → W → F × W
          aged (ok t) w = backend.time w
          aged (raised e) w = (f.nan, w)

      -- Step 1: the snapshots of the readers that did not fail.
      unfoldable pub read_protocols : List (Reader F W) → Exec (Agent F W) (List (ProtocolData F))
      read_protocols readers s =
          let r = read_all readers s.world in (ok r.results, record s { world = r.world })

      -- Steps 1 to 4, once there is data.
      unfoldable pub observe : List (ProtocolData F) → Exec (Agent F W) (Decided F)
      observe protocols = do
        gas_price_wei ← on_world backend.gas_price
        inputs ← as_action (smooth_all config protocols)
        current_adapter_index ← on_world backend.active_adapter_index
        nonce ← on_world backend.rebalance_nonce
        decision ←
            lift (
              evaluate config inputs (pos current_adapter_index) (rebalance_cost_eth gas_price_wei))
        pure (record { decision = decision; nonce = nonce; gas_price_wei = gas_price_wei })

      -- Step 6, the call of the signer.
      unfoldable pub sign : ℤ → ℕ → Exec (Agent F W) Signed
      sign target nonce s =
          let (now, w) = backend.time s.world in
          (
            sign_rebalance_params eth config target config.max_loss_bps nonce none now,
            record s { world = w },
          )

      -- The gas limit: the estimate with headroom, or the fallback if the estimate raises.
      unfoldable pub gas_limit_of : Signed → Exec (Agent F W) ℤ
      gas_limit_of signed =
          catch
            (do
              gas_estimate ← on_world (backend.estimate_gas signed)
              pure (with_headroom f gas_estimate))
            (λ e. pure config.gas_limit_fallback)

      unfoldable pub send : Submission → Text → Exec (Agent F W) Text
      send submission raw s =
          on_world (backend.send_raw_transaction raw) (record s { sent = submission ∷ s.sent })

      -- What a receipt leads to: a revert is retried only if the contract's nonce has moved.
      unfoldable pub after_receipt : ℕ → Receipt → Exec (Agent F W) Attempt
      after_receipt current_nonce receipt =
          if nat_beq receipt.status 1 then pure (finished true) else do
            new_nonce ← on_world backend.rebalance_nonce
            pure (if nat_beq new_nonce current_nonce then finished false else again new_nonce)

      -- The body of the `try` that builds, sends and waits.
      unfoldable pub send_and_wait : ℕ → ℕ → Signed → ℤ → Exec (Agent F W) Attempt
      send_and_wait gas_price_wei current_nonce signed gas_limit = do
        account_nonce ← on_world (backend.transaction_count signed.signer)
        let submission = submission_of signed gas_limit gas_price_wei account_nonce
        tx ← on_world (backend.build_transaction submission)
        raw ← on_world (backend.sign_transaction tx config.private_key)
        hash ← send submission raw
        receipt ← on_world (backend.wait_for_receipt hash)
        after_receipt current_nonce receipt

      -- `except Exception as e`: only an error that names a nonce is retried.
      unfoldable pub on_send_error : Exn → Exec (Agent F W) Attempt
      on_send_error e =
          if mentions_nonce (message e)
          then (do new_nonce ← on_world backend.rebalance_nonce; pure (again new_nonce))
          else pure (finished false)

      -- One round of the retry loop.
      unfoldable pub attempt : ℤ → ℕ → ℕ → Exec (Agent F W) Attempt
      attempt target gas_price_wei current_nonce = do
        signed ← sign target current_nonce
        on_world (backend.rebalance_call signed)
        gas_limit ← gas_limit_of signed
        catch (send_and_wait gas_price_wei current_nonce signed gas_limit) on_send_error

      -- `for attempt in range(1, NONCE_RETRY_LIMIT + 1)`, on the rounds left.
      unfoldable pub submit : ℕ → ℤ → ℕ → ℕ → Exec (Agent F W) Bool
      submit zero target gas_price_wei current_nonce = pure false
      submit (suc left) target gas_price_wei current_nonce = do
        outcome ← attempt target gas_price_wei current_nonce
        resume (submit left target gas_price_wei) outcome

      -- Steps 5 and 6.
      unfoldable pub act : Bool → Decided F → Exec (Agent F W) Bool
      act dry_run d =
          if not d.decision.should_rebalance
          then pure false
          else if dry_run
          then pure false
          else submit (pos_part config.nonce_retry_limit) d.decision.target_index d.gas_price_wei
              d.nonce

      unfoldable pub with_protocols : Bool → List (ProtocolData F) → Exec (Agent F W) Bool
      with_protocols dry_run [] = pure false
      with_protocols dry_run (p ∷ ps) = do d ← observe (p ∷ ps); act dry_run d

      unfoldable pub run_check : List (Reader F W) → Bool → Exec (Agent F W) Bool
      run_check readers dry_run = do
        age ← block_age
        if f.lt (ratio_int config.max_block_age_seconds 1) age
            then pure false
            else do protocols ← read_protocols readers; with_protocols dry_run protocols

      -- The loop of `main`, for a number of cycles: an exception ends its own cycle only.
      unfoldable pub run_cycles : ℕ → List (Reader F W) → Bool → Agent F W → Agent F W
      run_cycles zero readers dry_run s = s
      run_cycles (suc n) readers dry_run s =
          run_cycles n readers dry_run (run_check readers dry_run s).1
