-- ===== src/PerBlockLoop/Live.antt =====
-- agent/per_block_loop.py with agent/mempool.py, agent/state/history.py and agent/observability.py: the
-- event loop with all of the program's own objects. The chain, the relay's server, the disk and the
-- policy act on a part `W` of the world.
use event_time_mcdm_agent.Common.{ℤ, map}
use event_time_mcdm_agent.Float.{Float}
use event_time_mcdm_agent.Mempool.{FlashbotsMempool, RelayPorts, Net, on_net, submit_private_tx}
use event_time_mcdm_agent.History.{Parquet, HistoryStore}
use event_time_mcdm_agent.History.Flatten.{Row}
use event_time_mcdm_agent.History.Live.{stored}
use event_time_mcdm_agent.Observability.Sink.{Observer}
use event_time_mcdm_agent.PerBlockLoop.{BlockReader, Ports}
use event_time_mcdm_agent.PerBlockLoop.Metered.{Sensors, metered}

module _ {F : Type 0} ⦃f : Float F⦄ {R W : Type 0} (relay : RelayPorts R W)
    (client : FlashbotsMempool) where
  abbrev pub relayed_reader : BlockReader F W → BlockReader F (Net W)
  relayed_reader r = record {
    label = r.label;
    adapter_index = r.adapter_index;
    read_at_block = λ n. on_net (r.read_at_block n);
  }

  -- The loop's objects, with the client of the relay.
  unfoldable pub relayed : Ports F W → Ports F (Net W)
  relayed ports = record {
    readers = map relayed_reader ports.readers;
    gas_price = on_net ports.gas_price;
    get_block = λ n. on_net (ports.get_block n);
    utcnow = λ s. ((ports.utcnow s.world).0, record s { world = (ports.utcnow s.world).1 });
    eth_price_usd_provider = on_net ports.eth_price_usd_provider;
    new_state = ports.new_state;
    decide = λ state. on_net (ports.decide state);
    count_block = λ s. record s { world = ports.count_block s.world };
    submit_private_tx = λ target state. submit_private_tx relay client state.gas_price_gwei;
    record_decision = λ state action current s. record s {
      world = ports.record_decision state action current s.world;
    };
    append = λ state action. on_net (ports.append state action);
    position_usd = ports.position_usd;
    gas_used_estimate = ports.gas_used_estimate;
  }

  -- The client, the store and the sinks together.
  unfoldable pub live :
      {B : Type 0}
      → Parquet (Row F) B
      → ℤ
      → Sensors F (Net W × HistoryStore (Row F) B)
      → Ports F W
      → Ports F ((Net W × HistoryStore (Row F) B) × Observer F)
  live parquet max_rows sensors ports = metered sensors (stored parquet max_rows (relayed ports))
