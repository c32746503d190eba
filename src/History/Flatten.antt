-- ===== src/History/Flatten.antt =====
-- agent/state/history.py: `HistoryStore._flatten`, the row that the store keeps of a block.
use event_time_mcdm_agent.Common.{
  ℕ, List, [], ◌∷◌, Option, none, some, String, string_eq, Result, ok, raised, key_error, ◌>>=◌,
}
use event_time_mcdm_agent.Common.Dict.{Dict, lookup, insert}
use Prim.Native.String.{◌++◌ as ◌+++◌}
use event_time_mcdm_agent.PerBlockLoop.{BlockState, Action}

-- A value of a row.
pub data Cell (F : Type 0) : Type 0 where
  integer : ℕ → Cell F
  timestamp : ℕ → Cell F
  number : F → Cell F
  word : String → Cell F

abbrev pub Row : Type 0 → Type 0
Row F = Dict String (Cell F)

-- The columns of a protocol.
abbrev pub apr_column : String → String
apr_column proto = proto +++ "_lending_apr"

abbrev pub utilization_column : String → String
utilization_column proto = proto +++ "_utilization"

abbrev pub tvl_column : String → String
tvl_column proto = proto +++ "_tvl_usd"

-- `… if … is not None else ""`
abbrev pub or_empty : Option String → String
or_empty none = ""
or_empty (some text) = text

-- d[key]
abbrev pub given {ℓ} : {A : Type ℓ} → Option A → Result A
given none = raised key_error
given (some x) = ok x

module _ {F : Type 0} where
  -- The row before the protocols.
  unfoldable pub base_row : BlockState F → Action → Row F
  base_row state action =
      ("block_number", integer state.block_number)
      ∷ ("block_timestamp", timestamp state.block_timestamp)
      ∷ ("current_protocol", word (or_empty state.current_protocol))
      ∷ ("position_usd", number state.position_usd)
      ∷ ("gas_price_gwei", number state.gas_price_gwei)
      ∷ ("eth_price_usd", number state.eth_price_usd)
      ∷ ("gas_used_estimate", integer state.gas_used_estimate)
      ∷ ("action_kind", word action.kind)
      ∷ ("action_target", word (or_empty action.target_protocol))
      ∷ ("action_rationale", word action.rationale)
      ∷ []

  -- The loop over the protocols.
  unfoldable pub flatten_protocols : BlockState F → List String → Row F → Result (Row F)
  flatten_protocols state [] row = ok row
  flatten_protocols state (proto ∷ rest) row = do
    apr ← given (lookup proto state.lending_apr)
    used ← given (lookup proto state.utilization)
    tvl ← given (lookup proto state.tvl_usd)
    flatten_protocols state rest (
        insert (tvl_column proto) (number tvl) (
          insert (utilization_column proto) (number used)
            (insert (apr_column proto) (number apr) row)))

  -- `HistoryStore._flatten`
  unfoldable pub flatten : BlockState F → Action → Result (Row F)
  flatten state action = flatten_protocols state state.protocols (base_row state action)
