-- ===== src/Protocols/Tests.antt =====
-- The readers at concrete chains, and the theorems at inputs that meet their hypotheses.
use event_time_mcdm_agent.Common.{
  [], ℕ, ◌*◌, ◌^◌, pos, ◌≡◌, refl, none, some, Result, ok, raised, runtime_error, nat_beq,
  if◌then◌else◌,
}
use event_time_mcdm_agent.Float.Decimal.{Decimal, Decimal-IsIeee, decimal_float, ratio_decimal}
use event_time_mcdm_agent.Protocols.{ProtocolData, snapshot, ray, BlockId}
use event_time_mcdm_agent.Protocols.Aave
use event_time_mcdm_agent.Protocols.Aave.{
  ReserveData, PoolCalls, PoolReader, tokens, read_supplies, finish_read, read_reserve,
}
use event_time_mcdm_agent.Protocols.Spark
use event_time_mcdm_agent.Protocols.Compound
use event_time_mcdm_agent.Protocols.Compound.{CometCalls}
use event_time_mcdm_agent.Protocols.Fluid
use event_time_mcdm_agent.Protocols.Fluid.{FluidCalls, TokenData}
use event_time_mcdm_agent.Protocols.Euler
use event_time_mcdm_agent.Protocols.Euler.{VaultCalls}
use event_time_mcdm_agent.Protocols.Morpho
use event_time_mcdm_agent.Protocols.Morpho.{MorphoCalls, MorphoReader, Market}
use event_time_mcdm_agent.Protocols.Bounds.{IsBounded, readers-IsBounded}
use event_time_mcdm_agent.Protocols.Pinned.{SamePool, SameMarket}
use event_time_mcdm_agent.Protocols.Fork.{relabel, spark_read-eq-aave_read}

-- 4 % a year, 1,000 dollars supplied.
abbrev reserve : ReserveData
reserve = record {
  current_liquidity_rate = 4 * 10 ^ 25;
  atoken_address = "0xa1";
  variable_debt_token_address = "0xd1";
}

abbrev pool : PoolCalls
pool = record {
  get_reserve_data = λ block. ok reserve;
  total_supply = λ token block. ok (10 ^ 9);
  to_checksum_address = λ address. ok address;
}

-- Answers at one block as `pool` does, and fails at every other.
abbrev only_at : {A : Type 0} → ℕ → BlockId → A → Result A
only_at n none x = raised runtime_error
only_at n (some m) x = if nat_beq m n then ok x else raised runtime_error

abbrev archive : PoolCalls
archive = record {
  get_reserve_data = λ block. only_at 7 block reserve;
  total_supply = λ token block. only_at 7 block (10 ^ 9);
  to_checksum_address = λ address. ok address;
}

abbrev fresh : PoolReader
fresh = record { adapter_index = pos 0; atoken = none; variable_debt = none }

abbrev bound : PoolReader
bound = record { adapter_index = pos 0; atoken = some "0xa2"; variable_debt = some "0xd2" }

abbrev lent : Market
lent = record {
  total_supply_assets = 10 ^ 9;
  total_supply_shares = 10 ^ 15;
  total_borrow_assets = 9 * 10 ^ 8;
  total_borrow_shares = 9 * 10 ^ 14;
  last_update = 1;
  fee = 0;
}

abbrev morpho : MorphoCalls
morpho = record {
  market = λ block. ok lent;
  market_irm = λ block. ok "0x51";
  to_checksum_address = λ address. ok address;
  borrow_rate_view = λ irm m block. ok 1268391679;
}

abbrev archived : MorphoCalls
archived = record {
  market = λ block. only_at 7 (some block) lent;
  market_irm = λ block. only_at 7 (some block) "0x51";
  to_checksum_address = λ address. ok address;
  borrow_rate_view = λ irm m block. only_at 7 (some block) 1268391679;
}

abbrev unbound : MorphoReader
unbound = record { adapter_index = pos 4; market_id = []; irm = none }

archive-SamePool : SamePool pool archive 7
archive-SamePool = record { reserve = refl; supply = λ token. refl; checksum = λ s. refl }

archived-SameMarket : SameMarket morpho archived 7
archived-SameMarket = record { market = refl; irm = refl; rate = λ s m. refl; checksum = λ s. refl }

spark_read-eq-aave_read_example :
    Spark.read {F = Decimal} pool (ok 7) fresh
    ≡ (relabel "Spark" (Aave.read pool fresh).0, (Aave.read {F = Decimal} pool fresh).1)
spark_read-eq-aave_read_example = spark_read-eq-aave_read pool 7 fresh refl λ token. refl

abbrev aave_now : ProtocolData Decimal
aave_now =
    snapshot "Aave V3" (pos 0) (ratio_decimal (4 * 10 ^ 25) ray) (10 ^ 9) (10 ^ 9)
      (pos (4 * 10 ^ 16))

aave_read-eq-aave_now : (Aave.read pool fresh).0 ≡ ok aave_now
unfolding Aave.read read_reserve tokens finish_read read_supplies
aave_read-eq-aave_now = refl

abbrev comet : CometCalls
comet = record {
  get_utilization = ok (2 * 10 ^ 18);
  get_supply_rate = λ u. ok 1;
  total_supply = ok 5;
}

-- A market with no supply.
abbrev fluid : FluidCalls
fluid = λ block. ok (record { supply_rate = 1; total_supply = 0; total_borrow = 7 })

abbrev vault : VaultCalls
vault = record {
  interest_rate = λ block. raised runtime_error;
  total_assets = λ block. ok 1;
  total_borrows = λ block. ok 1;
}

readers-IsBounded_example :
    IsBounded (Aave.read {F = Decimal} pool fresh).0
    × IsBounded (Spark.read_at_block {F = Decimal} archive 7 bound).0
    × IsBounded (Compound.read {F = Decimal} comet (pos 1))
    × IsBounded (Fluid.read_at_block {F = Decimal} fluid (pos 1) 7)
    × IsBounded (Euler.read_at_block {F = Decimal} vault (pos 1) 7)
    × IsBounded (Morpho.read_at_block {F = Decimal} morpho 7 unbound).0
readers-IsBounded_example =
    readers-IsBounded Decimal-IsIeee pool archive comet fluid vault morpho fresh bound unbound
      (pos 1) 7
