-- ===== src/Protocols/Compound.antt =====
-- agent/protocols/compound.py: the Compound V3 reader.
use event_time_mcdm_agent.Common.{ℕ, ℤ, Result, ok, ◌>>=◌}
use event_time_mcdm_agent.Float.{Float, one_f, min_f}
use event_time_mcdm_agent.Protocols.{ProtocolData, scale_18, usdc_decimals, ratio_int}

-- The views of Comet, at the latest block.
pub record CometCalls : Type 0 where
  pub get_utilization : Result ℕ
  pub get_supply_rate : ℕ → Result ℕ
  pub total_supply : Result ℕ

module _ {F : Type 0} ⦃f : Float F⦄ where
  -- SECONDS_PER_YEAR = 365.25 * 24 * 3600, exactly 31557600.0
  abbrev pub comet_seconds_per_year : F
  comet_seconds_per_year = f.ratio 31557600 1

  -- `CompoundV3Reader.read`
  unfoldable pub read : CometCalls → ℤ → Result (ProtocolData F)
  read calls adapter_index = do
    utilization_raw ← calls.get_utilization
    per_second_rate ← calls.get_supply_rate utilization_raw
    let rate_1e18 = f.truncate (f.mul (f.ratio per_second_rate 1) comet_seconds_per_year)
    total_supply ← calls.total_supply
    ok (record {
      name = "Compound V3";
      adapter_index = adapter_index;
      apy = ratio_int rate_1e18 scale_18;
      utilization = min_f (f.ratio utilization_raw scale_18) one_f;
      tvl = f.ratio total_supply usdc_decimals;
      raw_rate_1e18 = rate_1e18;
    })
