-- ===== src/PerBlockLoop/Lifted.antt =====
-- What an object of the loop keeps, it keeps beside the store and beside the sinks.
use event_time_mcdm_agent.Common.{ℤ, map, String, List, [], ◌∷◌}
use event_time_mcdm_agent.Float.{Float}
use event_time_mcdm_agent.History.{Parquet, HistoryStore}
use event_time_mcdm_agent.History.Flatten.{Row}
use event_time_mcdm_agent.History.Live.{append_action, stored}
use event_time_mcdm_agent.Observability.Sink.{Observer}
use event_time_mcdm_agent.PerBlockLoop.{BlockState, Action, BlockReader, Ports}
use event_time_mcdm_agent.PerBlockLoop.Metered.{apart, metered_reader, Sensors, metered}
use event_time_mcdm_agent.PerBlockLoop.Keeps.{AreReadersKept, IsKeptBy}

module _ {W : Type 0} (P : List String → W → Type 0) (O : Type 0) where
  abbrev pub Beside : List String → W × O → Type 0
  Beside targets s = P targets s.0

  Beside-AreReadersKept :
      {F : Type 0} ⦃f : Float F⦄ (readers : List (BlockReader F W))
      → AreReadersKept P readers
      → AreReadersKept Beside (map metered_reader readers)
  unfolding apart
  Beside-AreReadersKept [] kept = tt
  Beside-AreReadersKept (r ∷ rest) (h, hs) =
      (λ targets n s p. h targets n s.0 p, Beside-AreReadersKept rest hs)

module _ {F : Type 0} ⦃f : Float F⦄ {W : Type 0} (P : List String → W → Type 0) where
  module _ (ports : Ports F W) (kept : IsKeptBy P ports) where
    pub stored-IsLifted :
        {B : Type 0} (parquet : Parquet (Row F) B) (max_rows : ℤ)
        → IsKeptBy (Beside P (HistoryStore (Row F) B)) (stored parquet max_rows ports)
    unfolding stored apart
    stored-IsLifted parquet max_rows = record {
      readers_kept = Beside-AreReadersKept P _ ports.readers kept.readers_kept;
      gas_price_kept = λ targets s p. kept.gas_price_kept targets s.0 p;
      get_block_kept = λ targets n s p. kept.get_block_kept targets n s.0 p;
      utcnow_kept = λ targets s p. kept.utcnow_kept targets s.0 p;
      price_kept = λ targets s p. kept.price_kept targets s.0 p;
      decide_kept = λ targets state s p. kept.decide_kept targets state s.0 p;
      count_kept = λ targets s p. kept.count_kept targets s.0 p;
      submit_kept = λ target state targets s p. kept.submit_kept target state targets s.0 p;
      record_kept =
          λ targets state action current s p. kept.record_kept targets state action current s.0 p;
      append_kept = λ targets state action s p. p;
    }

    pub metered-IsLifted :
        (sensors : Sensors F W) → IsKeptBy (Beside P (Observer F)) (metered sensors ports)
    unfolding metered apart
    metered-IsLifted sensors = record {
      readers_kept = Beside-AreReadersKept P _ ports.readers kept.readers_kept;
      gas_price_kept = λ targets s p. kept.gas_price_kept targets s.0 p;
      get_block_kept = λ targets n s p. kept.get_block_kept targets n s.0 p;
      utcnow_kept = λ targets s p. kept.utcnow_kept targets s.0 p;
      price_kept = λ targets s p. kept.price_kept targets s.0 p;
      decide_kept = λ targets state s p. kept.decide_kept targets state s.0 p;
      count_kept = λ targets s p. p;
      submit_kept = λ target state targets s p. kept.submit_kept target state targets s.0 p;
      record_kept = λ targets state action current s p. p;
      append_kept = λ targets state action s p. kept.append_kept targets state action s.0 p;
    }

-- What an append keeps of the store, the loop keeps.
module _ {F : Type 0} ⦃f : Float F⦄ {B : Type 0} (Q : HistoryStore (Row F) B → Type 0) where
  abbrev pub OfStore : {W : Type 0} → List String → W × HistoryStore (Row F) B → Type 0
  OfStore targets w = Q w.1

  pub OfStore-AreReadersKept :
      {W : Type 0} (readers : List (BlockReader F W))
      → AreReadersKept (OfStore {W = W}) (map metered_reader readers)
  unfolding apart
  OfStore-AreReadersKept [] = tt
  OfStore-AreReadersKept (r ∷ rest) = (λ targets k w p. p, OfStore-AreReadersKept rest)

  pub OfStore-IsKeptBy :
      {W : Type 0} (parquet : Parquet (Row F) B) (max_rows : ℤ) (ports : Ports F W)
      → ((state : BlockState F) (action : Action) (s : HistoryStore (Row F) B)
          → Q s
          → Q (append_action parquet max_rows state action s).1)
      → IsKeptBy (OfStore {W = W}) (stored parquet max_rows ports)
  unfolding stored apart
  OfStore-IsKeptBy parquet max_rows ports keeps = record {
    readers_kept = OfStore-AreReadersKept ports.readers;
    gas_price_kept = λ targets w p. p;
    get_block_kept = λ targets k w p. p;
    utcnow_kept = λ targets w p. p;
    price_kept = λ targets w p. p;
    decide_kept = λ targets state w p. p;
    count_kept = λ targets w p. p;
    submit_kept = λ target state targets w p. p;
    record_kept = λ targets state action current w p. p;
    append_kept = λ targets state action w p. keeps state action w.1 p;
  }
