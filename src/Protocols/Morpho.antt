-- ===== src/Protocols/Morpho.antt =====
-- agent/protocols/morpho.py: the reader of one Morpho Blue market.
use event_time_mcdm_agent.Common.{
  ℕ, ◌*◌, ℤ, pos, Option, none, some, String, List, length, Result, ok, raised, value_error, ◌>>=◌,
  if◌then◌else◌, ◌==◌, nat_eq,
}
use event_time_mcdm_agent.Common.Exec.{Exec, continue}
use event_time_mcdm_agent.Float.{Float}
use event_time_mcdm_agent.Protocols.{ProtocolData, scale_18, seconds_per_year, snapshot}

-- The six fields of `market`.
pub record Market : Type 0 where
  pub total_supply_assets : ℕ
  pub total_supply_shares : ℕ
  pub total_borrow_assets : ℕ
  pub total_borrow_shares : ℕ
  pub last_update : ℕ
  pub fee : ℕ

-- The calls on web3 for one market: its state, the rate model of its parameters (field 3), the
-- checksum of an address, and `borrowRateView` of a rate model.
pub record MorphoCalls : Type 0 where
  pub market : ℕ → Result Market
  pub market_irm : ℕ → Result String
  pub to_checksum_address : String → Result String
  pub borrow_rate_view : String → Market → ℕ → Result ℕ

-- The rate model is bound on the first read.
pub record MorphoReader : Type 0 where
  pub adapter_index : ℤ
  pub market_id : List ℕ
  pub irm : Option String

-- `MorphoBlueReader.__init__` accepts only an id of 32 bytes.
unfoldable pub new_reader : List ℕ → ℤ → Result MorphoReader
new_reader market_id adapter_index =
    if length market_id == 32
    then ok (record { adapter_index = adapter_index; market_id = market_id; irm = none })
    else raised value_error

unfoldable pub rate_model : MorphoCalls → ℕ → Option String → Result String
rate_model calls block_number (some irm) = ok irm
rate_model calls block_number none = do
  address ← calls.market_irm block_number
  calls.to_checksum_address address

module _ {F : Type 0} ⦃f : Float F⦄ where
  unfoldable pub read_rate : MorphoCalls → ℕ → Market → String → ℤ → Result (ProtocolData F)
  read_rate calls block_number m irm adapter_index = do
    per_second_rate ← calls.borrow_rate_view irm m block_number
    ok (
        snapshot "Morpho Blue" adapter_index
          (f.mul (f.ratio per_second_rate scale_18) (f.ratio seconds_per_year 1))
          m.total_supply_assets m.total_borrow_assets (pos (per_second_rate * seconds_per_year)))

  -- The rate model is kept, also if its rate then fails.
  unfoldable pub finish_rate :
      MorphoCalls → ℕ → Market → String → Exec MorphoReader (ProtocolData F)
  finish_rate calls block_number m irm r =
      (read_rate calls block_number m irm r.adapter_index, record r { irm = some irm })

  unfoldable pub read_market : MorphoCalls → ℕ → Market → Exec MorphoReader (ProtocolData F)
  read_market calls block_number m r =
      continue (rate_model calls block_number r.irm) (finish_rate calls block_number m) r

  -- `MorphoBlueReader.read_at_block`
  unfoldable pub read_at_block : MorphoCalls → ℕ → Exec MorphoReader (ProtocolData F)
  read_at_block calls block_number r =
      continue (calls.market block_number) (read_market calls block_number) r

  -- `MorphoBlueReader.read`: at the current head.
  unfoldable pub read : MorphoCalls → Result ℕ → Exec MorphoReader (ProtocolData F)
  read calls head r = continue head (read_at_block calls) r
