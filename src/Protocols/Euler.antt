-- ===== src/Protocols/Euler.antt =====
-- agent/protocols/euler.py: the reader of one Euler V2 vault.
use event_time_mcdm_agent.Common.{
  ℕ, ◌*◌, ◌/◌, ℤ, pos, Option, none, some, String, Result, ok, raised, value_error, ◌>>=◌,
  if◌then◌else◌, ◌==◌, string_eq,
}
use event_time_mcdm_agent.Float.{Float}
use event_time_mcdm_agent.Protocols.{ProtocolData, ray, scale_18, seconds_per_year, snapshot}

-- The views of the vault at a block.
pub record VaultCalls : Type 0 where
  pub interest_rate : ℕ → Result ℕ
  pub total_assets : ℕ → Result ℕ
  pub total_borrows : ℕ → Result ℕ

-- `if not vault_address: raise ValueError`
abbrev pub require_address : Option String → Result String
require_address none = raised value_error
require_address (some a) = if a == "" then raised value_error else ok a

-- The address that `EulerV2Reader.__init__` binds: the argument, or else `EULER_USDC_VAULT`.
unfoldable pub vault_address : Option String → Option String → Result String
vault_address none env = require_address env
vault_address (some a) env = require_address (some a)

module _ {F : Type 0} ⦃f : Float F⦄ where
  -- `EulerV2Reader.read_at_block`
  unfoldable pub read_at_block : VaultCalls → ℤ → ℕ → Result (ProtocolData F)
  read_at_block calls adapter_index block_number = do
    per_second_ray ← calls.interest_rate block_number
    total_assets ← calls.total_assets block_number
    total_borrows ← calls.total_borrows block_number
    ok (
        snapshot "Euler V2" adapter_index
          (f.mul (f.ratio per_second_ray ray) (f.ratio seconds_per_year 1)) total_assets
          total_borrows (pos (per_second_ray * seconds_per_year * scale_18 / ray)))

  -- `EulerV2Reader.read`: at the current head.
  unfoldable pub read : VaultCalls → ℤ → Result ℕ → Result (ProtocolData F)
  read calls adapter_index head = do
    block_number ← head
    read_at_block calls adapter_index block_number
