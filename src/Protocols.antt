-- ===== src/Protocols.antt =====
-- agent/protocols/base.py, and what the readers beside it share. A view call on a contract is a
-- parameter: a function of the block that gives the value or the exception of web3.
pub mod Aave
pub mod Spark
pub mod Compound
pub mod Fluid
pub mod Morpho
pub mod Euler
pub mod Bounds
pub mod Pinned
pub mod Fork
mod Tests
use event_time_mcdm_agent.Common.{
  ℕ, zero, suc, ◌+◌, ◌*◌, ◌^◌, ℤ, pos, negsuc, Option, none, some, String, Result, ok, raised,
  not_implemented, if◌then◌else◌, ltb,
}
use event_time_mcdm_agent.Float.{Float, zero_f, one_f, min_f}

pub record ProtocolData (F : Type 0) : Type 0 where
  pub name : String
  pub adapter_index : ℤ
  pub apy : F
  pub utilization : F
  pub tvl : F
  pub raw_rate_1e18 : ℤ

-- The `block_identifier` of a call; `none` is the latest block.
abbrev pub BlockId : Type 0
BlockId = Option ℕ

abbrev pub ray : ℕ
ray = 10 ^ 27

abbrev pub scale_18 : ℕ
scale_18 = 10 ^ 18

abbrev pub usdc_decimals : ℕ
usdc_decimals = 10 ^ 6

-- 365 * 24 * 60 * 60, as Fluid, Morpho and Euler have it.
abbrev pub seconds_per_year : ℕ
seconds_per_year = 31536000

-- `ProtocolReader.read_at_block`, which Aave V3 and Compound V3 inherit.
unfoldable pub default_read_at_block {ℓ} : {A : Type ℓ} → ℕ → Result A
default_read_at_block block_number = raised not_implemented

module _ {F : Type 0} ⦃f : Float F⦄ where
  -- (borrowed / supplied) if supplied > 0 else 0.0
  unfoldable pub utilization_of : ℕ → ℕ → F
  utilization_of borrowed supplied = if ltb 0 supplied then f.ratio borrowed supplied else zero_f

  -- An int over an int, the numerator of either sign.
  unfoldable pub ratio_int : ℤ → ℕ → F
  ratio_int (pos n) d = f.ratio n d
  ratio_int (negsuc n) d = f.neg (f.ratio (n + 1) d)

  -- The snapshot that Aave, Fluid, Morpho and Euler return, from the supplied and the borrowed total.
  unfoldable pub snapshot : String → ℤ → F → ℕ → ℕ → ℤ → ProtocolData F
  snapshot name adapter_index apy supplied borrowed rate_1e18 = record {
    name = name;
    adapter_index = adapter_index;
    apy = apy;
    utilization = min_f (utilization_of borrowed supplied) one_f;
    tvl = f.ratio supplied usdc_decimals;
    raw_rate_1e18 = rate_1e18;
  }
