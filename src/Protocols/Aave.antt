-- ===== src/Protocols/Aave.antt =====
-- agent/protocols/aave.py: the Aave V3 reader.
use event_time_mcdm_agent.Common.{
  ℕ, ◌*◌, ◌/◌, ℤ, pos, Option, none, some, String, Result, ok, ◌>>=◌,
}
use event_time_mcdm_agent.Common.Exec.{Exec, continue}
use event_time_mcdm_agent.Float.{Float}
use event_time_mcdm_agent.Protocols.{ProtocolData, BlockId, ray, scale_18, snapshot}

-- The fields of `getReserveData` that are read: 2, 8 and 10.
pub record ReserveData : Type 0 where
  pub current_liquidity_rate : ℕ
  pub atoken_address : String
  pub variable_debt_token_address : String

-- The calls on web3: the pool's view, an ERC-20 supply, and `Web3.to_checksum_address`.
pub record PoolCalls : Type 0 where
  pub get_reserve_data : BlockId → Result ReserveData
  pub total_supply : String → BlockId → Result ℕ
  pub to_checksum_address : String → Result String

-- The reader's attributes; the two tokens are bound on the first read. Spark has the same ones.
pub record PoolReader : Type 0 where
  pub adapter_index : ℤ
  pub atoken : Option String
  pub variable_debt : Option String

unfoldable pub new_reader : ℤ → PoolReader
new_reader adapter_index = record {
  adapter_index = adapter_index;
  atoken = none;
  variable_debt = none;
}

-- The tokens to use: those bound before, or both from the reserve data.
unfoldable pub tokens :
    PoolCalls → ReserveData → Option String → Option String → Result (String × String)
tokens calls reserve_data (some a) (some v) = ok (a, v)
tokens calls reserve_data _ _ = do
  a ← calls.to_checksum_address reserve_data.atoken_address
  v ← calls.to_checksum_address reserve_data.variable_debt_token_address
  ok (a, v)

module _ {F : Type 0} ⦃f : Float F⦄ where
  -- What follows the binding of the tokens.
  unfoldable pub read_supplies :
      PoolCalls → BlockId → String → ReserveData → String × String → ℤ → Result (ProtocolData F)
  read_supplies calls block name reserve_data (atoken, variable_debt) adapter_index = do
    total_supplied ← calls.total_supply atoken block
    total_borrowed ← calls.total_supply variable_debt block
    ok (
        snapshot name adapter_index (f.ratio reserve_data.current_liquidity_rate ray) total_supplied
          total_borrowed (pos (reserve_data.current_liquidity_rate * scale_18 / ray)))

  -- The tokens are kept, also if a supply then fails.
  unfoldable pub finish_read :
      PoolCalls
      → BlockId
      → String
      → ReserveData
      → String × String
      → Exec PoolReader (ProtocolData F)
  finish_read calls block name reserve_data bound r = (
    read_supplies calls block name reserve_data bound r.adapter_index,
    record r { atoken = some bound.0; variable_debt = some bound.1 },
  )

  -- The body of a read once the reserve data is there: a refused address binds nothing.
  unfoldable pub read_reserve :
      PoolCalls → BlockId → String → ReserveData → Exec PoolReader (ProtocolData F)
  read_reserve calls block name reserve_data r =
      continue (tokens calls reserve_data r.atoken r.variable_debt)
        (finish_read calls block name reserve_data) r

  -- `AaveV3Reader.read`
  unfoldable pub read : PoolCalls → Exec PoolReader (ProtocolData F)
  read calls r = continue (calls.get_reserve_data none) (read_reserve calls none "Aave V3") r
