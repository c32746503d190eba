-- ===== src/History/Live.antt =====
-- agent/per_block_loop.py with agent/state/history.py: the event loop that appends to the program's
-- store. The other objects act on a part `W` of the world.
use event_time_mcdm_agent.Common.{ℤ, map, Result, ok, raised}
use event_time_mcdm_agent.Common.Exec.{Exec}
use event_time_mcdm_agent.Float.{Float}
use event_time_mcdm_agent.PerBlockLoop.{BlockState, Action, Ports}
use event_time_mcdm_agent.PerBlockLoop.Metered.{apart, metered_reader}
use event_time_mcdm_agent.History.{Parquet, HistoryStore, append}
use event_time_mcdm_agent.History.Flatten.{Row, flatten}

module _ {F : Type 0} ⦃f : Float F⦄ {B : Type 0} (parquet : Parquet (Row F) B) (max_rows : ℤ) where
  abbrev pub append_row : Result (Row F) → Exec (HistoryStore (Row F) B) (Unit {0})
  append_row (ok row) s = append parquet max_rows row s
  append_row (raised e) s = (raised e, s)

  -- `HistoryStore.append` of a state and an action: the row is flattened first.
  unfoldable pub append_action : BlockState F → Action → Exec (HistoryStore (Row F) B) (Unit {0})
  append_action state action = append_row (flatten state action)

  module _ {W : Type 0} (ports : Ports F W) where
    -- The loop's objects, with the store.
    unfoldable pub stored : Ports F (W × HistoryStore (Row F) B)
    stored = record {
      readers = map metered_reader ports.readers;
      gas_price = apart ports.gas_price;
      get_block = λ n. apart (ports.get_block n);
      utcnow = λ s. ((ports.utcnow s.0).0, ((ports.utcnow s.0).1, s.1));
      eth_price_usd_provider = apart ports.eth_price_usd_provider;
      new_state = ports.new_state;
      decide = λ state. apart (ports.decide state);
      count_block = λ s. (ports.count_block s.0, s.1);
      submit_private_tx = λ target state. apart (ports.submit_private_tx target state);
      record_decision =
          λ state action current s. (ports.record_decision state action current s.0, s.1);
      append = λ state action s.
          ((append_action state action s.1).0, (s.0, (append_action state action s.1).1));
      position_usd = ports.position_usd;
      gas_used_estimate = ports.gas_used_estimate;
    }
