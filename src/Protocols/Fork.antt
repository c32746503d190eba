-- ===== src/Protocols/Fork.antt =====
-- The Aave and the Spark reader against each other, and the tokens that they keep.
use event_time_mcdm_agent.Common.{
  ℕ, ℤ, ◌≡◌, ◌≢◌, refl, Option, none, some, String, Result, ok, raised, arith,
}
use event_time_mcdm_agent.Common.Exec.{continue}
use event_time_mcdm_agent.Float.{Float}
use event_time_mcdm_agent.Protocols.{ProtocolData, snapshot, utilization_of}
use event_time_mcdm_agent.Protocols.Aave
use event_time_mcdm_agent.Protocols.Aave.{
  ReserveData, PoolCalls, PoolReader, tokens, read_supplies, finish_read, read_reserve,
}
use event_time_mcdm_agent.Protocols.Spark

bind_tokens-eq-tokens :
    (calls : PoolCalls) (d : ReserveData) (a v : Option String)
    → Spark.bind_tokens calls d a v ≡ tokens calls d a v
unfolding Spark.bind_tokens tokens
bind_tokens-eq-tokens calls d (some a) (some v) = refl
bind_tokens-eq-tokens calls d none v = refl
bind_tokens-eq-tokens calls d (some a) none = refl

module _ {F : Type 0} ⦃f : Float F⦄ where
  -- A snapshot under another label.
  abbrev pub relabel : String → Result (ProtocolData F) → Result (ProtocolData F)
  relabel name (ok d) = ok (record d { name = name })
  relabel name (raised e) = raised e

  -- A read in progress, as (snapshot or exception, reader), under another label.
  abbrev relabel_step : Result (ProtocolData F) × PoolReader → Result (ProtocolData F) × PoolReader
  relabel_step (result, r) = (relabel "Spark" result, r)

  module _ (calls : PoolCalls) (head : ℕ)
      (supplies : (token : String)
        → calls.total_supply token (some head) ≡ calls.total_supply token none) where
    read_supplies-relabel :
        (d : ReserveData) (bound : String × String) (i : ℤ)
        → Spark.read_totals calls head d bound i
          ≡ relabel "Spark" (read_supplies calls none "Aave V3" d bound i)
    unfolding Spark.read_totals read_supplies snapshot utilization_of
    read_supplies-relabel d (a, v) i = ground (arith, supplies a, supplies v)

    finish-relabel :
        (d : ReserveData) (t : Result (String × String)) (r : PoolReader)
        → continue t (Spark.read_with calls head d) r
          ≡ relabel_step (continue t (finish_read calls none "Aave V3" d) r)
    unfolding Spark.read_with finish_read
    finish-relabel d (ok bound) r = rw (read_supplies-relabel d bound r.adapter_index)
    finish-relabel d (raised e) r = refl

    reserve-relabel :
        (t : Result ReserveData) (r : PoolReader)
        → continue t (Spark.read_pool calls head) r
          ≡ relabel_step (continue t (read_reserve calls none "Aave V3") r)
    unfolding Spark.read_pool read_reserve
    reserve-relabel (ok d) r =
        rw (bind_tokens-eq-tokens calls d r.atoken r.variable_debt)
          (finish-relabel d (tokens calls d r.atoken r.variable_debt) r)
    reserve-relabel (raised e) r = refl

  -- The two readers, each with its own code, do the same: on a chain whose latest block is the head, `SparkReader.read` gives
  -- the snapshot or the exception of `AaveV3Reader.read`, under its own label, and leaves the same
  -- tokens bound.
  pub spark_read-eq-aave_read :
      (calls : PoolCalls) (head : ℕ) (r : PoolReader)
      → calls.get_reserve_data (some head) ≡ calls.get_reserve_data none
      → ((token : String) → calls.total_supply token (some head) ≡ calls.total_supply token none)
      → Spark.read {F = F} calls (ok head) r
        ≡ (relabel "Spark" (Aave.read calls r).0, (Aave.read {F = F} calls r).1)
  unfolding Spark.read Spark.read_at_block Aave.read
  spark_read-eq-aave_read calls head r same supplies =
      rw same (reserve-relabel calls head supplies (calls.get_reserve_data none) r)

module _ (F : Type 0) ⦃f : Float F⦄ (calls : PoolCalls) (r : PoolReader) where
  -- Once both tokens are bound, a read never binds others, whatever the pool then answers.
  pub aave_read_keeps_tokens :
      (a v : String)
      → r.atoken ≡ some a
      → r.variable_debt ≡ some v
      → let r' = (Aave.read {F = F} calls r).1 in (r'.atoken ≡ some a) × (r'.variable_debt ≡ some v)
  unfolding Aave.read read_reserve tokens finish_read
  aave_read_keeps_tokens a v ea ev = ground arith

  -- A read that returns a snapshot leaves both tokens bound.
  pub aave_read_binds :
      (d : ProtocolData F)
      → (Aave.read calls r).0 ≡ ok d
      → let r' = (Aave.read {F = F} calls r).1 in (r'.atoken ≢ none) × (r'.variable_debt ≢ none)
  unfolding Aave.read read_reserve finish_read
  aave_read_binds d e = ground arith
