-- ===== src/Main/Startup.antt =====
-- agent/main.py: `main`, from its settings to its loop. argparse and the construction of the readers'
-- contracts are web3's and the standard library's, and are parameters.
use event_time_mcdm_agent.Common.{
  Bool, not, ◌&&◌, ℕ, List, [], Result, ok, raised, Exn, if◌then◌else◌, ◌==◌, string_eq,
}
use event_time_mcdm_agent.Common.Exec.{Exec}
use event_time_mcdm_agent.Float.{Float}
use event_time_mcdm_agent.Config.{Config}
use event_time_mcdm_agent.DataReader.{Reader}
use event_time_mcdm_agent.Signer.{EthAccount}
use event_time_mcdm_agent.Main.Backend.{Backend, Agent}
use event_time_mcdm_agent.Main.Cycle.{run_check, run_cycles}

-- The flags that `parse_args` gives.
pub record Args : Type 0 where
  pub once : Bool
  pub dry_run : Bool

-- How the program stands: ended by `sys.exit` or by an exception, back from `main`, or in its loop.
pub data Outcome : Type 0 where
  exited : ℕ → Outcome
  crashed : Exn → Outcome
  done : Outcome
  looping : Outcome

-- The first calls on web3: the connection, and the two numbers that are logged.
pub record Node (W : Type 0) : Type 0 where
  pub is_connected : W → Bool × W
  pub chain_id : Exec W ℕ
  pub block_number : Exec W ℕ

-- Each of the three settings must be there.
unfoldable pub is_configured : {F : Type 0} → Config F → Bool
is_configured config =
    not (config.rpc_url == "") && not (config.private_key == "") && not (config.vault_address == "")

-- An exception of the only check ends the program.
abbrev pub ended : {F W : Type 0} → Result Bool × Agent F W → Outcome × Agent F W
ended (ok sent, s) = (done, s)
ended (raised e, s) = (crashed e, s)

module _ {F : Type 0} ⦃f : Float F⦄ {W : Type 0} (config : Config F) (backend : Backend F W)
    (eth : EthAccount) (node : Node W) (default_readers : Result (List (Reader F W))) where
  -- One check for `--once`, where an exception ends the program, or else so many cycles of the loop.
  unfoldable pub serve : Args → ℕ → List (Reader F W) → Agent F W → Outcome × Agent F W
  serve args n readers s =
      if args.once
      then ended (run_check config backend eth readers args.dry_run s)
      else (looping, run_cycles config backend eth n readers args.dry_run s)

  -- `DataReader(w3)`: no TVL is known.
  unfoldable pub open_reader :
      Args → ℕ → Result (List (Reader F W)) → Agent F W → Outcome × Agent F W
  open_reader args n (ok readers) s = serve args n readers (record s { prev_tvl = [] })
  open_reader args n (raised e) s = (crashed e, s)

  -- `log.info` of the two numbers, each of which is a call.
  unfoldable pub log_block : Args → ℕ → Agent F W → Result ℕ × W → Outcome × Agent F W
  log_block args n s (ok number, w) = open_reader args n default_readers (record s { world = w })
  log_block args n s (raised e, w) = (crashed e, record s { world = w })

  unfoldable pub log_chain : Args → ℕ → Agent F W → Result ℕ × W → Outcome × Agent F W
  log_chain args n s (ok id, w) = log_block args n s (node.block_number w)
  log_chain args n s (raised e, w) = (crashed e, record s { world = w })

  unfoldable pub connect : Args → ℕ → Agent F W → Outcome × Agent F W
  connect args n s =
      let (connected, w) = node.is_connected s.world in
      let s' = record s { world = w } in
      if connected then log_chain args n s' (node.chain_id w) else (exited 1, s')

  -- `main`, where the loop is followed for `n` cycles.
  unfoldable pub main : Args → ℕ → Agent F W → Outcome × Agent F W
  main args n s = if is_configured config then connect args n s else (exited 1, s)
