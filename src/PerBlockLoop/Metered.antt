-- ===== src/PerBlockLoop/Metered.antt =====
-- agent/per_block_loop.py with agent/observability.py: the event loop that reports to the program's
-- registry and audit trail. The other objects act on a part `W` of the world.
use event_time_mcdm_agent.Common.{ℕ, ◌^◌, [], map, Option, String, Result}
use event_time_mcdm_agent.Common.Exec.{Exec}
use event_time_mcdm_agent.Float.{Float, one_f}
use event_time_mcdm_agent.Observability.Registry.{observe, inc}
use event_time_mcdm_agent.Observability.Audit.{Os}
use event_time_mcdm_agent.Observability.Sink.{DecisionRecord, Observer, record_decision}
use event_time_mcdm_agent.PerBlockLoop.{BlockState, Action, BlockReader, Ports}

module _ {W O A : Type 0} where
  abbrev beside : O → Result A × W → Result A × (W × O)
  beside o (r, w) = (r, (w, o))

  -- What does not touch the observability objects.
  unfoldable pub apart : Exec W A → Exec (W × O) A
  apart m (w, o) = beside o (m w)

-- What the sinks see of the system: the operating system, the clock of `perf_counter` around
-- `decide`, and `isoformat`.
pub record Sensors (F W : Type 0) : Type 0 where
  pub os : W → Os
  pub elapsed : W → F
  pub isoformat : ℕ → String

module _ {F : Type 0} ⦃f : Float F⦄ where
  unfoldable pub gas_cost_usd : BlockState F → F
  gas_cost_usd state =
      f.mul
        (f.mul (f.mul (f.ratio state.gas_used_estimate 1) state.gas_price_gwei)
          (f.ratio 1 (10 ^ 9)))
        state.eth_price_usd

  -- The arguments of `record_decision`. The keys of `lending_apr` are the protocols.
  unfoldable pub decision_record :
      (ℕ → String) → BlockState F → Action → Option String → DecisionRecord F
  decision_record isoformat state action current = record {
    block_number = state.block_number;
    block_timestamp = isoformat state.block_timestamp;
    action_kind = action.kind;
    target_protocol = action.target_protocol;
    rationale = action.rationale;
    current_protocol = current;
    position_usd = state.position_usd;
    gas_price_gwei = state.gas_price_gwei;
    gas_cost_usd = gas_cost_usd state;
    panel_snapshot = state.lending_apr;
  }

  -- The metrics of a block.
  unfoldable pub count_block : F → Observer F → Observer F
  count_block elapsed o = record o {
    metrics =
        inc "agent_blocks_processed_total" [] one_f
          (observe "agent_decision_latency_seconds" [] elapsed o.metrics);
  }

  abbrev pub metered_reader : {W O : Type 0} → BlockReader F W → BlockReader F (W × O)
  metered_reader r = record {
    label = r.label;
    adapter_index = r.adapter_index;
    read_at_block = λ n. apart (r.read_at_block n);
  }

  module _ {W : Type 0} (sensors : Sensors F W) (ports : Ports F W) where
    -- The loop's objects, with the metrics and the sink of agent/observability.py.
    unfoldable pub metered : Ports F (W × Observer F)
    metered = record {
      readers = map metered_reader ports.readers;
      gas_price = apart ports.gas_price;
      get_block = λ n. apart (ports.get_block n);
      utcnow = λ s. ((ports.utcnow s.0).0, ((ports.utcnow s.0).1, s.1));
      eth_price_usd_provider = apart ports.eth_price_usd_provider;
      new_state = ports.new_state;
      decide = λ state. apart (ports.decide state);
      count_block = λ s. (s.0, count_block (sensors.elapsed s.0) s.1);
      submit_private_tx = λ target state. apart (ports.submit_private_tx target state);
      record_decision = λ state action current s. (
        s.0,
        record_decision (sensors.os s.0) (decision_record sensors.isoformat state action current)
            s.1,
      );
      append = λ state action. apart (ports.append state action);
      position_usd = ports.position_usd;
      gas_used_estimate = ports.gas_used_estimate;
    }
