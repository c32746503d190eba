-- ===== src/Protocols/Fluid.antt =====
-- agent/protocols/fluid.py: the reader of Fluid's liquidity layer.
use event_time_mcdm_agent.Common.{ℕ, ◌*◌, ℤ, pos, Result, ok, ◌>>=◌}
use event_time_mcdm_agent.Float.{Float}
use event_time_mcdm_agent.Protocols.{ProtocolData, scale_18, seconds_per_year, snapshot}

-- The fields 0, 2 and 3 of `getOverallTokenData`.
pub record TokenData : Type 0 where
  pub supply_rate : ℕ
  pub total_supply : ℕ
  pub total_borrow : ℕ

-- The view at a block.
abbrev pub FluidCalls : Type 0
FluidCalls = ℕ → Result TokenData

module _ {F : Type 0} ⦃f : Float F⦄ where
  -- `FluidReader.read_at_block`
  unfoldable pub read_at_block : FluidCalls → ℤ → ℕ → Result (ProtocolData F)
  read_at_block calls adapter_index block_number = do
    d ← calls block_number
    ok (
        snapshot "Fluid" adapter_index
          (f.mul (f.ratio d.supply_rate scale_18) (f.ratio seconds_per_year 1)) d.total_supply
          d.total_borrow (pos (d.supply_rate * seconds_per_year)))

  -- `FluidReader.read`: at the current head.
  unfoldable pub read : FluidCalls → ℤ → Result ℕ → Result (ProtocolData F)
  read calls adapter_index head = do
    block_number ← head
    read_at_block calls adapter_index block_number
