-- ===== src/Protocols/Spark.antt =====
-- agent/protocols/spark.py: the Spark reader, an Aave V3 fork that reads at a given block. The views
-- that it calls are those of an Aave pool, and it keeps the same two attributes.
use event_time_mcdm_agent.Common.{
  ℕ, ◌*◌, ◌/◌, ℤ, pos, Option, none, some, String, Result, ok, ◌>>=◌, ltb, if◌then◌else◌,
}
use event_time_mcdm_agent.Common.Exec.{Exec, continue}
use event_time_mcdm_agent.Float.{Float, zero_f, one_f, min_f}
use event_time_mcdm_agent.Protocols.{ProtocolData, ray, scale_18, usdc_decimals}
use event_time_mcdm_agent.Protocols.Aave.{ReserveData, PoolCalls, PoolReader}

-- `SparkReader.__init__`: no token is bound yet.
unfoldable pub new_reader : ℤ → PoolReader
new_reader adapter_index = record {
  adapter_index = adapter_index;
  atoken = none;
  variable_debt = none;
}

-- `if self._atoken is None or self._variable_debt is None`: both are taken from the reserve data.
unfoldable pub bind_tokens :
    PoolCalls → ReserveData → Option String → Option String → Result (String × String)
bind_tokens calls reserve_data (some atoken) (some variable_debt) = ok (atoken, variable_debt)
bind_tokens calls reserve_data _ _ = do
  atoken_addr ← calls.to_checksum_address reserve_data.atoken_address
  vdebt_addr ← calls.to_checksum_address reserve_data.variable_debt_token_address
  ok (atoken_addr, vdebt_addr)

module _ {F : Type 0} ⦃f : Float F⦄ where
  -- What follows the two tokens: both supplies at the block, and the snapshot.
  unfoldable pub read_totals :
      PoolCalls → ℕ → ReserveData → String × String → ℤ → Result (ProtocolData F)
  read_totals calls block_number reserve_data (atoken, variable_debt) adapter_index = do
    total_supplied ← calls.total_supply atoken (some block_number)
    total_borrowed ← calls.total_supply variable_debt (some block_number)
    let liquidity_rate_ray = reserve_data.current_liquidity_rate
    let utilization = if ltb 0 total_supplied then f.ratio total_borrowed total_supplied else zero_f
    ok (record {
      name = "Spark";
      adapter_index = adapter_index;
      apy = f.ratio liquidity_rate_ray ray;
      utilization = min_f utilization one_f;
      tvl = f.ratio total_supplied usdc_decimals;
      raw_rate_1e18 = pos (liquidity_rate_ray * scale_18 / ray);
    })

  -- The tokens are kept, also if a supply then fails.
  unfoldable pub read_with :
      PoolCalls → ℕ → ReserveData → String × String → Exec PoolReader (ProtocolData F)
  read_with calls block_number reserve_data bound r = (
    read_totals calls block_number reserve_data bound r.adapter_index,
    record r { atoken = some bound.0; variable_debt = some bound.1 },
  )

  unfoldable pub read_pool : PoolCalls → ℕ → ReserveData → Exec PoolReader (ProtocolData F)
  read_pool calls block_number reserve_data r =
      continue (bind_tokens calls reserve_data r.atoken r.variable_debt)
        (read_with calls block_number reserve_data) r

  -- `SparkReader.read_at_block`
  unfoldable pub read_at_block : PoolCalls → ℕ → Exec PoolReader (ProtocolData F)
  read_at_block calls block_number r =
      continue (calls.get_reserve_data (some block_number)) (read_pool calls block_number) r

  -- `SparkReader.read`: at the current head, `w3.eth.block_number`.
  unfoldable pub read : PoolCalls → Result ℕ → Exec PoolReader (ProtocolData F)
  read calls head r = continue head (read_at_block calls) r
