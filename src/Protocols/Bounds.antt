-- ===== src/Protocols/Bounds.antt =====
-- Every snapshot that a reader returns has its utilization between 0 and 1.
use event_time_mcdm_agent.Common.{
  ℕ, ◌<◌, ℤ, some, none, String, Exn, Result, ok, raised, ◌>>=◌, arith, ltb, ltb→lt, Bool-cases,
  if◌then◌else◌, inl, inr,
}
use event_time_mcdm_agent.Common.Exec.{continue}
use event_time_mcdm_agent.Float.{Float, zero_f, one_f, min_f}
use event_time_mcdm_agent.Float.Laws.{IsIeee}
use event_time_mcdm_agent.Scoring.Bounds.{IsUnit, zero-IsFinite, zero-le-one, one-IsFinite}
use event_time_mcdm_agent.Protocols.{ProtocolData, BlockId, snapshot, utilization_of, scale_18}
use event_time_mcdm_agent.Protocols.Aave
use event_time_mcdm_agent.Protocols.Aave.{PoolCalls, PoolReader, ReserveData}
use event_time_mcdm_agent.Protocols.Spark
use event_time_mcdm_agent.Protocols.Compound
use event_time_mcdm_agent.Protocols.Compound.{CometCalls}
use event_time_mcdm_agent.Protocols.Fluid
use event_time_mcdm_agent.Protocols.Fluid.{FluidCalls}
use event_time_mcdm_agent.Protocols.Euler
use event_time_mcdm_agent.Protocols.Euler.{VaultCalls}
use event_time_mcdm_agent.Protocols.Morpho
use event_time_mcdm_agent.Protocols.Morpho.{MorphoCalls, MorphoReader}

pos_scale : 0 < scale_18
pos_scale = omega arith

module _ {F : Type 0} ⦃f : Float F⦄ where
  -- What holds of a snapshot; nothing is said of an exception.
  pub data IsBounded : Result (ProtocolData F) → Type 0 where
    returned : (d : ProtocolData F) → IsUnit d.utilization → IsBounded (ok d)
    failed : (e : Exn) → IsBounded (raised e)

  >>=-IsBounded :
      {A : Type 0} (m : Result A) {k : A → Result (ProtocolData F)}
      → ((a : A) → IsBounded (k a))
      → IsBounded (m >>= k)
  >>=-IsBounded (ok a) h = h a
  >>=-IsBounded (raised e) h = failed e

  continue-IsBounded :
      {A R : Type 0} (m : Result A) (r : R) (k : A → R → Result (ProtocolData F) × R)
      → ((a : A) → IsBounded (k a r).0)
      → IsBounded (continue m k r).0
  continue-IsBounded (ok a) r k h = h a
  continue-IsBounded (raised e) r k h = failed e

  module _ (laws : IsIeee F) where
    open laws use {lt_iff_le, le_total, le_number, finite_number, ratio_le}

    capped-IsUnit : (n d : ℕ) → 0 < d → IsUnit (min_f (f.ratio n d) one_f)
    unfolding min_f
    capped-IsUnit n d p =
        let low = ratio_le 0 1 n d (omega arith) p (omega arith) in
        ground (
          arith,
          lt_iff_le one_f (f.ratio n d),
          le_number zero_f (f.ratio n d),
          le_total one_f (f.ratio n d),
          zero-le-one laws,
          finite_number one_f (one-IsFinite laws),
          low,
        )

    scaled-IsUnit : (n : ℕ) → IsUnit (min_f (f.ratio n scale_18) one_f)
    scaled-IsUnit n = capped-IsUnit n scale_18 pos_scale

    capped_zero-IsUnit : IsUnit (min_f {F = F} zero_f one_f)
    unfolding min_f
    capped_zero-IsUnit =
        ground (
          arith,
          lt_iff_le one_f zero_f,
          zero-le-one laws,
          finite_number zero_f (zero-IsFinite laws),
        )

    snapshot-IsBounded :
        (name : String) (i : ℤ) (apy : F) (supplied borrowed : ℕ) (rate : ℤ)
        → IsUnit (snapshot name i apy supplied borrowed rate).utilization
    unfolding snapshot utilization_of
    snapshot-IsBounded name i apy supplied borrowed rate = elim (Bool-cases (ltb 0 supplied)) [
      | inl e ↦ rw e (capped-IsUnit borrowed supplied (ltb→lt 0 supplied e))
      | inr e ↦ rw e capped_zero-IsUnit
    ]

    read_supplies-IsBounded :
        (calls : PoolCalls) (b : BlockId) (name : String) (d : ReserveData)
        (bound : String × String) (i : ℤ)
        → IsBounded (Aave.read_supplies calls b name d bound i)
    unfolding Aave.read_supplies
    read_supplies-IsBounded calls b name d (a, v) i =
        >>=-IsBounded (calls.total_supply a b) λ supplied.
          >>=-IsBounded (calls.total_supply v b)
            λ borrowed. returned _ (snapshot-IsBounded name i _ supplied borrowed _)

    reserve-IsBounded :
        (calls : PoolCalls) (b : BlockId) (name : String) (r : PoolReader)
        → IsBounded (continue (calls.get_reserve_data b) (Aave.read_reserve calls b name) r).0
    unfolding Aave.read_reserve Aave.finish_read
    reserve-IsBounded calls b name r = continue-IsBounded (calls.get_reserve_data b) r _ λ d.
        continue-IsBounded (Aave.tokens calls d r.atoken r.variable_debt) r _
          λ bound. read_supplies-IsBounded calls b name d bound r.adapter_index

    utilization-IsUnit :
        (supplied borrowed : ℕ)
        → IsUnit (min_f (if ltb 0 supplied then f.ratio borrowed supplied else zero_f) one_f)
    utilization-IsUnit supplied borrowed = elim (Bool-cases (ltb 0 supplied)) [
      | inl e ↦ rw e (capped-IsUnit borrowed supplied (ltb→lt 0 supplied e))
      | inr e ↦ rw e capped_zero-IsUnit
    ]

    totals-IsBounded :
        (calls : PoolCalls) (n : ℕ) (d : ReserveData) (bound : String × String) (i : ℤ)
        → IsBounded (Spark.read_totals calls n d bound i)
    unfolding Spark.read_totals
    totals-IsBounded calls n d (a, v) i = >>=-IsBounded (calls.total_supply a (some n)) λ supplied.
        >>=-IsBounded (calls.total_supply v (some n))
          λ borrowed. returned _ (utilization-IsUnit supplied borrowed)

    spark-IsBounded :
        (calls : PoolCalls) (n : ℕ) (r : PoolReader) → IsBounded (Spark.read_at_block calls n r).0
    unfolding Spark.read_at_block Spark.read_pool Spark.read_with
    spark-IsBounded calls n r = continue-IsBounded (calls.get_reserve_data (some n)) r _ λ d.
        continue-IsBounded (Spark.bind_tokens calls d r.atoken r.variable_debt) r _
          λ bound. totals-IsBounded calls n d bound r.adapter_index

    compound-IsBounded : (calls : CometCalls) (i : ℤ) → IsBounded (Compound.read calls i)
    unfolding Compound.read
    compound-IsBounded calls i = >>=-IsBounded calls.get_utilization λ u.
        >>=-IsBounded (calls.get_supply_rate u)
          λ rate. >>=-IsBounded calls.total_supply λ supply. returned _ (scaled-IsUnit u)

    fluid-IsBounded :
        (calls : FluidCalls) (i : ℤ) (n : ℕ) → IsBounded (Fluid.read_at_block calls i n)
    unfolding Fluid.read_at_block
    fluid-IsBounded calls i n =
        >>=-IsBounded (calls n)
          λ d. returned _ (snapshot-IsBounded _ i _ d.total_supply d.total_borrow _)

    euler-IsBounded :
        (calls : VaultCalls) (i : ℤ) (n : ℕ) → IsBounded (Euler.read_at_block calls i n)
    unfolding Euler.read_at_block
    euler-IsBounded calls i n = >>=-IsBounded (calls.interest_rate n) λ rate.
        >>=-IsBounded (calls.total_assets n) λ assets.
          >>=-IsBounded (calls.total_borrows n)
            λ borrows. returned _ (snapshot-IsBounded _ i _ assets borrows _)

    morpho-IsBounded :
        (calls : MorphoCalls) (n : ℕ) (r : MorphoReader)
        → IsBounded (Morpho.read_at_block calls n r).0
    unfolding Morpho.read_at_block Morpho.read_market Morpho.finish_rate Morpho.read_rate
    morpho-IsBounded calls n r = continue-IsBounded (calls.market n) r _ λ m.
        continue-IsBounded (Morpho.rate_model calls n r.irm) r _ λ irm.
          >>=-IsBounded (calls.borrow_rate_view irm m n) λ rate.
            returned _
              (snapshot-IsBounded _ r.adapter_index _ m.total_supply_assets m.total_borrow_assets _)

    -- Whatever the chain answers, every snapshot that one of the six readers returns has its
    -- utilization between 0 and 1, also for a market with no supply, where nothing is divided.
    pub readers-IsBounded :
        (pool spark : PoolCalls) (comet : CometCalls) (fluid : FluidCalls) (vault : VaultCalls)
        (morpho : MorphoCalls) (r s : PoolReader) (m : MorphoReader) (i : ℤ) (block_number : ℕ)
        → IsBounded (Aave.read pool r).0
          × IsBounded (Spark.read_at_block spark block_number s).0
          × IsBounded (Compound.read comet i)
          × IsBounded (Fluid.read_at_block fluid i block_number)
          × IsBounded (Euler.read_at_block vault i block_number)
          × IsBounded (Morpho.read_at_block morpho block_number m).0
    unfolding Aave.read
    readers-IsBounded pool spark comet fluid vault morpho r s m i n = (
      reserve-IsBounded pool none "Aave V3" r,
      spark-IsBounded spark n s,
      compound-IsBounded comet i,
      fluid-IsBounded fluid i n,
      euler-IsBounded vault i n,
      morpho-IsBounded morpho n m,
    )
