-- ===== src/Api.antt =====
-- agent/api.py: what the endpoints do, without the routing. The server shares the smoothed rates with
-- the agent, so it acts on the same state, beside a TVL history and a world of its own.
mod Models
pub mod Agreement
pub mod Rebalance
mod Tests
unfoldable pub use Models.*
use event_time_mcdm_agent.Common.{
  ℕ, zero, suc, ◌*◌, ◌^◌, ℤ, pos, negsuc, Option, none, some, List, [], ◌∷◌, map, String, Text,
  Bool, true, false, not, ◌&&◌, Result, ok, raised, Exn, value_error, external, http_exception,
  if◌then◌else◌, ltb, nat_beq, ◌==◌, string_eq, int_eq, ◌-ℤ◌,
}
use event_time_mcdm_agent.Common.Dict.{lookup, insert}
use event_time_mcdm_agent.Common.Exec.{Exec, pure, raise, lift, catch, ◌>>=◌, ◌>>◌}
use event_time_mcdm_agent.Float.{Float, one_f}
use event_time_mcdm_agent.Config.{Config}
use event_time_mcdm_agent.Protocols.{ProtocolData}
use event_time_mcdm_agent.DataReader.{Reader, get_tvl_delta}
use event_time_mcdm_agent.Scoring.{ProtocolInput, ProtocolScore, ScoringDecision, evaluate}
use event_time_mcdm_agent.Signer.{EthAccount, Signed}
use event_time_mcdm_agent.Main.Backend.{Backend, Agent, Submission, Receipt, on_world}
use event_time_mcdm_agent.Main.Cycle.{
  ema_smooth, rebalance_cost_eth, as_action, sign, send, read_protocols,
}

module _ {F : Type 0} ⦃f : Float F⦄ {W : Type 0} (config : Config F) where
  -- The body of the loop of `protocol_rates`.
  unfoldable pub rate_of : ProtocolData F → Agent F W → ProtocolRate F × Agent F W
  rate_of p s =
      let smoothed = ema_smooth p.apy (lookup p.adapter_index s.smoothed_rates) config.ema_alpha in
      (
        record {
          name = p.name;
          adapter_index = p.adapter_index;
          apy_percent = f.round (f.mul p.apy (f.ratio 100 1)) 4;
          utilization_percent = f.round (f.mul p.utilization (f.ratio 100 1)) 2;
          smoothed_apy_percent = f.round (f.mul smoothed (f.ratio 100 1)) 4;
        },
        record s { smoothed_rates = insert p.adapter_index smoothed s.smoothed_rates },
      )

  unfoldable pub rates_of : List (ProtocolData F) → Agent F W → List (ProtocolRate F) × Agent F W
  rates_of [] s = ([], s)
  rates_of (p ∷ ps) s =
      let (rate, s') = rate_of p s in let (rest, s'') = rates_of ps s' in (rate ∷ rest, s'')

  -- The body of the loop of `run_scoring`.
  unfoldable pub score_input_of : ProtocolData F → Agent F W → ProtocolInput F × Agent F W
  score_input_of p s =
      let smoothed = ema_smooth p.apy (lookup p.adapter_index s.smoothed_rates) config.ema_alpha in
      let s' = record s { smoothed_rates = insert p.adapter_index smoothed s.smoothed_rates } in
      let (tvl_delta, prev_tvl) = get_tvl_delta p s'.prev_tvl in
      (
        record {
          adapter_index = p.adapter_index;
          name = p.name;
          apy = smoothed;
          utilization = p.utilization;
          tvl_delta = some tvl_delta;
        },
        record s' { prev_tvl = prev_tvl },
      )

  -- The loop of `run_scoring`, which fills `protocol_data`.
  unfoldable pub protocol_data :
      List (ProtocolData F) → Agent F W → List (ProtocolInput F) × Agent F W
  protocol_data [] s = ([], s)
  protocol_data (p ∷ ps) s =
      let (input, s') = score_input_of p s in
      let (rest, s'') = protocol_data ps s' in (input ∷ rest, s'')

  -- `_get_w3`: the provider is made once, which contacts nothing.
  unfoldable pub get_w3 : Exec (Agent F W) (Unit {0})
  get_w3 = if config.rpc_url == "" then raise (http_exception 503) else pure tt

  module _ (backend : Backend F W) (views : Views W) (eth : EthAccount) where
    -- int(time.time())
    unfoldable pub now_seconds : Exec (Agent F W) ℤ
    now_seconds s =
        let (now, w) = backend.time s.world in (ok (f.truncate now), record s { world = w })

    -- `health`
    unfoldable pub health : Exec (Agent F W) Health
    health = do
      connected ← catch (do get_w3; on_world views.is_connected) (λ e. pure false)
      timestamp ← now_seconds
      pure (record {
        status = if connected then "ok" else "degraded";
        rpc_connected = connected;
        vault_configured = not (config.vault_address == "");
        timestamp = timestamp;
      })

    -- The assets for 10^12 shares, or 1.0 when there are no shares.
    unfoldable pub share_price : ℕ → Exec (Agent F W) F
    share_price total_supply =
        if ltb 0 total_supply
        then (do
          assets ← on_world (views.convert_to_assets (10 ^ 12))
          pure (f.div (f.ratio assets 1) (f.ratio (10 ^ 6) 1)))
        else pure one_f

    -- `vault_status`
    unfoldable pub vault_status : Exec (Agent F W) (VaultStatus F)
    vault_status = do
      get_w3
      total_assets ← on_world views.total_assets
      total_supply ← on_world views.total_supply
      active_idx ← on_world backend.active_adapter_index
      has_active ← on_world views.has_active_strategy
      is_paused ← on_world views.paused
      last_rebalance ← on_world views.last_rebalance_timestamp
      vault_keeper ← on_world views.keeper
      price ← share_price total_supply
      now ← now_seconds
      pure (record {
        total_assets_usdc = f.div (f.ratio total_assets 1) (f.ratio (10 ^ 6) 1);
        share_price = f.round price 6;
        total_shares = f.div (f.ratio total_supply 1) (f.ratio (10 ^ 12) 1);
        active_adapter_index = active_idx;
        active_adapter_name = adapter_name (pos active_idx);
        has_active_strategy = has_active;
        is_paused = is_paused;
        last_rebalance_timestamp = last_rebalance;
        seconds_since_rebalance = now -ℤ pos last_rebalance;
        keeper = vault_keeper;
      })

    -- `protocol_rates`
    unfoldable pub protocol_rates : List (Reader F W) → Exec (Agent F W) (List (ProtocolRate F))
    protocol_rates readers = do
      get_w3
      protocols ← read_protocols config backend eth readers
      as_action (rates_of protocols)

    -- `run_scoring` after the snapshots, up to the decision.
    unfoldable pub score_protocols : List (ProtocolData F) → Exec (Agent F W) (ScoringDecision F)
    score_protocols protocols = do
      gas_price ← on_world backend.gas_price
      current_idx ← on_world backend.active_adapter_index
      inputs ← as_action (protocol_data protocols)
      lift (evaluate config inputs (pos current_idx) (rebalance_cost_eth gas_price))

    -- `run_scoring`
    unfoldable pub run_scoring : List (Reader F W) → Exec (Agent F W) (ScoreResult F)
    run_scoring readers = do
      get_w3
      protocols ← read_protocols config backend eth readers
      decision ← score_protocols protocols
      pure (score_result config decision)

    -- The answer when nothing is to be done. A text in an int field is accepted by the response model
    -- only if `parse_int` reads it; else the model raises its ValidationError, a ValueError.
    unfoldable pub hold_result :
        (String → Option ℤ) → Bool → ScoreResult F → Exec (Agent F W) (RebalanceResult F)
    hold_result parse_int dry_run score = answer score.details
      where
        held : ℤ → RebalanceResult F
        held target = record {
          executed = false;
          dry_run = dry_run;
          target_adapter_index = target;
          message = not_needed score.score_delta score.threshold;
          tx_hash = none;
        }

        checked : Option ℤ → Exec (Agent F W) (RebalanceResult F)
        checked none = raise value_error
        checked (some target) = pure (held target)

        answer : List (Detail F) → Exec (Agent F W) (RebalanceResult F)
        answer [] = pure (held (negsuc 0))
        answer (d ∷ rest) = checked (parse_int d.name)

    -- next((d for d in [0, 1] if d != …), 0), with one call for each `d` that is tried.
    unfoldable pub other_adapter : Exec (Agent F W) ℤ
    other_adapter = do
      first ← on_world backend.active_adapter_index
      if not (nat_beq 0 first) then pure (pos 0) else do
        second ← on_world backend.active_adapter_index
        pure (if not (nat_beq 1 second) then pos 1 else pos 0)

    unfoldable pub dry_result : ScoreResult F → Exec (Agent F W) (RebalanceResult F)
    dry_result score = do
      target ← other_adapter
      pure (record {
        executed = false;
        dry_run = true;
        target_adapter_index = target;
        message = would_rebalance score.best_adapter score.score_delta;
        tx_hash = none;
      })

    -- `next(…)` over the details: StopIteration if no total is the best score.
    unfoldable pub find_best : F → List (Detail F) → Exec (Agent F W) String
    find_best best_score [] = raise (external [])
    find_best best_score (d ∷ rest) =
        let later = find_best best_score rest in
        if f.le d.total_score best_score && f.le best_score d.total_score
        then pure d.name
        else later

    abbrev pub submission_for : Signed → ℕ → ℕ → Submission
    submission_for signed account_nonce gas_price = record {
      signed = signed;
      account_nonce = account_nonce;
      gas = pos 500_000;
      max_fee_per_gas = gas_price * 2;
      max_priority_fee_per_gas = 10 ^ 9;
    }

    -- The body of the `try`, from the signature on.
    unfoldable pub send_signed : AdapterName → ℤ → Signed → Exec (Agent F W) (RebalanceResult F)
    send_signed best_adapter target signed = do
      on_world (backend.rebalance_call signed)
      account_nonce ← on_world (backend.transaction_count signed.signer)
      gas_price ← on_world backend.gas_price
      let submission = submission_for signed account_nonce gas_price
      tx ← on_world (backend.build_transaction submission)
      raw ← on_world (backend.sign_transaction tx config.private_key)
      hash ← send config backend eth submission raw
      receipt ← on_world (backend.wait_for_receipt hash)
      pure (record {
        executed = nat_beq receipt.status 1;
        dry_run = false;
        target_adapter_index = target;
        message = rebalanced best_adapter receipt.block_number;
        tx_hash = some hash;
      })

    -- The body of the `try`.
    unfoldable pub execute_rebalance : ScoreResult F → Exec (Agent F W) (RebalanceResult F)
    execute_rebalance score = do
      nonce ← on_world backend.rebalance_nonce
      current_idx ← on_world backend.active_adapter_index
      target_name ← find_best score.best_score score.details
      let target = index_of_name score.best_adapter
      signed ← sign config backend eth target nonce
      send_signed score.best_adapter target signed

    -- What follows the scoring.
    unfoldable pub answer_score :
        (String → Option ℤ) → Bool → ScoreResult F → Exec (Agent F W) (RebalanceResult F)
    answer_score parse_int dry_run score =
        if not score.should_rebalance
        then hold_result parse_int dry_run score
        else if dry_run
        then dry_result score
        else catch (execute_rebalance score) (λ e. raise (http_exception 500))

    -- `trigger_rebalance`
    unfoldable pub trigger_rebalance :
        (String → Option ℤ) → List (Reader F W) → Bool → Exec (Agent F W) (RebalanceResult F)
    trigger_rebalance parse_int readers dry_run = do
      score ← run_scoring readers
      answer_score parse_int dry_run score
