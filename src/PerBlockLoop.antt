-- ===== src/PerBlockLoop.antt =====
-- agent/per_block_loop.py: one block of the event loop. The policy, the mempool client, the history,
-- the metrics sink and the calls on web3 are what the loop is given, each an action on the world `W`.
-- Readers run concurrently in the program; here each read is one step, in the order of the labels.
pub mod Position
pub mod Stale
pub mod Metered
pub mod Counted
pub mod Keeps
pub mod Live
pub mod Lifted
pub mod Sound
pub mod Progress
pub mod Concurrent
pub mod Session
pub mod Heads
pub mod Schedules
pub mod Prompt
pub mod Tests
mod Examples
use event_time_mcdm_agent.Common.{
  ℕ, ◌^◌, ℤ, pos, Option, none, some, List, [], ◌∷◌, map, String, Bool, Result, ok, raised, Exn,
  assertion_error, if◌then◌else◌, ◌==◌, string_eq,
}
use event_time_mcdm_agent.Common.Dict.{Dict, insert}
use event_time_mcdm_agent.Common.Exec.{Exec, pure, raise, lift, ◌>>=◌, ◌>>◌}
use event_time_mcdm_agent.Float.{Float, zero_f}
use event_time_mcdm_agent.Protocols.{ProtocolData}
use event_time_mcdm_agent.Mempool.{Json}

-- What the loop puts into a `BlockState`.
pub record BlockState (F : Type 0) : Type 0 where
  pub block_number : ℕ
  pub block_timestamp : ℕ
  pub protocols : List String
  pub lending_apr : Dict String F
  pub utilization : Dict String F
  pub tvl_usd : Dict String F
  pub current_protocol : Option String
  pub position_usd : F
  pub gas_price_gwei : F
  pub eth_price_usd : F
  pub gas_used_estimate : ℕ

-- What the loop reads of an `Action`.
pub record Action : Type 0 where
  pub kind : String
  pub target_protocol : Option String
  pub rationale : String

-- A labelled reader: `read_at_block` under `asyncio.wait_for`, where a timeout is an exception, and
-- its ADAPTER_INDEX, or -1.
pub record BlockReader (F W : Type 0) : Type 0 where
  pub label : String
  pub adapter_index : ℤ
  pub read_at_block : ℕ → Exec W (ProtocolData F)

-- What the loop is given. `new_state` is the check that the constructor of BlockState makes,
-- `count_block` the metrics of a block, `record_decision` the sink of agent/observability.py, which
-- never raises.
pub record Ports (F W : Type 0) : Type 0 where
  pub readers : List (BlockReader F W)
  pub gas_price : Exec W ℕ
  pub get_block : ℕ → Exec W ℕ
  pub utcnow : W → ℕ × W
  pub eth_price_usd_provider : Exec W F
  pub new_state : BlockState F → Result (Unit {0})
  pub decide : BlockState F → Exec W Action
  pub count_block : W → W
  pub submit_private_tx : String → BlockState F → Exec W Json
  pub record_decision : BlockState F → Action → Option String → W → W
  pub append : BlockState F → Action → Exec W (Unit {0})
  pub position_usd : F
  pub gas_used_estimate : ℕ

-- The attribute that changes, and the world. `submitted` is no part of the program: it keeps the
-- targets for which `submit_private_tx` returned, the last one first.
pub record Loop (W : Type 0) : Type 0 where
  pub current_protocol : Option String
  pub world : W
  pub submitted : List String

-- The target of a submission that returned is noted.
abbrev pub noted : String → Result Json → List String → List String
noted target (ok hash) targets = target ∷ targets
noted target (raised e) targets = targets

module _ {W A : Type 0} where
  abbrev put_world : Loop W → Result A × W → Result A × Loop W
  put_world s (r, w) = (r, record s { world = w })

  abbrev pub outside : Exec W A → Exec (Loop W) A
  outside m s = put_world s (m s.world)

module _ {F : Type 0} ⦃f : Float F⦄ where
  unfoldable pub stale_snapshot : String → ℤ → ProtocolData F
  stale_snapshot name adapter_index = record {
    name = name;
    adapter_index = adapter_index;
    apy = f.nan;
    utilization = f.nan;
    tvl = zero_f;
    raw_rate_1e18 = pos 0;
  }

  module _ {W : Type 0} where
    -- A snapshot, or the stale one if the read raised.
    abbrev pub or_stale : BlockReader F W → Result (ProtocolData F) → ProtocolData F
    or_stale r (ok d) = d
    or_stale r (raised e) = stale_snapshot r.label r.adapter_index

    -- `PerBlockLoop._read_one`
    unfoldable pub read_one : ℕ → BlockReader F W → W → ProtocolData F × W
    read_one block_number r w =
        let (result, w') = r.read_at_block block_number w in (or_stale r result, w')

    -- The snapshots beside their labels.
    unfoldable pub gather : ℕ → List (BlockReader F W) → W → List (String × ProtocolData F) × W
    gather block_number [] w = ([], w)
    gather block_number (r ∷ rest) w =
        let (d, w') = read_one block_number r w in
        let (ds, w'') = gather block_number rest w' in ((r.label, d) ∷ ds, w'')

  -- A dict of one field, filled in the order of the labels.
  unfoldable pub panel :
      (ProtocolData F → F) → List (String × ProtocolData F) → Dict String F → Dict String F
  panel field [] d = d
  panel field ((label, snap) ∷ rest) d = panel field rest (insert label (field snap) d)

  module _ {W : Type 0} (ports : Ports F W) where
    -- float(raw) / 1e9
    unfoldable pub to_gwei : ℕ → F
    to_gwei raw = f.div (f.ratio raw 1) (f.ratio (10 ^ 9) 1)

    -- `_fetch_block_timestamp`: the clock stands in for a block that cannot be read.
    unfoldable pub fetch_block_timestamp : ℕ → W → ℕ × W
    fetch_block_timestamp block_number w = stamp (ports.get_block block_number w)
      where
        stamp : Result ℕ × W → ℕ × W
        stamp (ok t, w') = (t, w')
        stamp (raised e, w') = ports.utcnow w'

    unfoldable pub assemble :
        Option String → ℕ → ℕ → F → F → List (String × ProtocolData F) → BlockState F
    assemble current block_number block_timestamp gas_price_gwei eth_price_usd snapshots = record {
      block_number = block_number;
      block_timestamp = block_timestamp;
      protocols = map (λ (p : String × ProtocolData F). p.0) snapshots;
      lending_apr = panel (λ d. d.apy) snapshots [];
      utilization = panel (λ d. d.utilization) snapshots [];
      tvl_usd = panel (λ d. d.tvl) snapshots [];
      current_protocol = current;
      position_usd = ports.position_usd;
      gas_price_gwei = gas_price_gwei;
      eth_price_usd = eth_price_usd;
      gas_used_estimate = ports.gas_used_estimate;
    }

    -- The steps 1 to 4 of `_handle_block`. A failed gas price raises only after the reads.
    unfoldable pub prepare : Option String → ℕ → Exec W (BlockState F × Action)
    prepare current block_number w =
        let (gas, w1) = ports.gas_price w in
        let (stamp, w2) = fetch_block_timestamp block_number w1 in
        let (snapshots, w3) = gather block_number ports.readers w2 in
        conclude gas stamp snapshots w3
      where
        conclude : Result ℕ → ℕ → List (String × ProtocolData F) → Exec W (BlockState F × Action)
        conclude gas stamp snapshots = do
          raw ← lift gas
          eth_price_usd ← ports.eth_price_usd_provider
          let state = assemble current block_number stamp (to_gwei raw) eth_price_usd snapshots
          lift (ports.new_state state)
          action ← ports.decide state
          λ w. (ok (state, action), ports.count_block w)

    -- `mempool.submit_private_tx`, noted if it returns.
    unfoldable pub submit_private : String → BlockState F → Exec (Loop W) Json
    submit_private target state s =
        let (result, w) = ports.submit_private_tx target state s.world in
        (result, record s { world = w; submitted = noted target result s.submitted })

    unfoldable pub move : String → Exec (Loop W) (Unit {0})
    move target s = (ok tt, record s { current_protocol = some target })

    -- The position moves after the submission returned.
    unfoldable pub switch : BlockState F → Option String → Exec (Loop W) (Unit {0})
    switch state none = raise assertion_error
    switch state (some target) = do hash ← submit_private target state; move target

    -- Step 5.
    unfoldable pub execute : BlockState F → Action → Exec (Loop W) (Unit {0})
    execute state action =
        if action.kind == "switch" then switch state action.target_protocol else pure tt

    -- The steps 5b and 6.
    unfoldable pub persist : BlockState F → Action → Exec (Loop W) (Unit {0})
    persist state action s =
        outside
          (λ w. ports.append state action (ports.record_decision state action s.current_protocol w))
          s

    -- Steps 5 and 6, and the return.
    unfoldable pub complete : BlockState F × Action → Exec (Loop W) Action
    complete (state, action) = do execute state action; persist state action; pure action

    -- `PerBlockLoop._handle_block`
    unfoldable pub handle_block : ℕ → Exec (Loop W) Action
    handle_block block_number s =
        (do decided ← outside (prepare s.current_protocol block_number); complete decided) s

    -- The handler of `run`, block after block: an exception ends its own block only.
    unfoldable pub run : List ℕ → Loop W → Loop W
    run [] s = s
    run (block_number ∷ rest) s = run rest (handle_block block_number s).1
