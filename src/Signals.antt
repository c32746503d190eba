-- ===== src/Signals.antt =====
-- agent/signals/: the value of a signal at the live block. A frame is its rows, where a column that a
-- row has not is NaN; the builder of a signal, a package outside the repository, is a parameter.
pub mod Rows
pub mod Drift
mod Tests
use event_time_mcdm_agent.Common.{
  ℕ, List, [], ◌∷◌, ◌++◌, Option, none, some, String, string_eq, if◌then◌else◌, Result, ok, raised,
  index_error, ◌>>=◌,
}
use event_time_mcdm_agent.Common.Dict.{Dict, lookup, insert}
use event_time_mcdm_agent.Float.{Float}
use event_time_mcdm_agent.PerBlockLoop.{BlockState}
use event_time_mcdm_agent.History.Flatten.{Cell, integer, timestamp, number, Row, apr_column, given}

-- The columns of a builder's frame, or an exception.
abbrev pub Builder : Type 0 → Type 0
Builder F = List (Row F) → Result (Dict String (List F))

abbrev pub f1_output_col : String
f1_output_col = "f1_lead_spread_dsr_vs_top"

abbrev pub f3_output_col : String
f3_output_col = "f3_spread_top2"

abbrev pub f4_output_col : String
f4_output_col = "f4_gas_log10"

-- .iloc[-1]
unfoldable pub last_item {ℓ} : {A : Type ℓ} → List A → Result A
last_item [] = raised index_error
last_item (x ∷ []) = ok x
last_item (x ∷ y ∷ rest) = last_item (y ∷ rest)

module _ {F : Type 0} where
  -- The loop over the protocols.
  unfoldable pub live_protocols : BlockState F → List String → Row F → Result (Row F)
  live_protocols state [] row = ok row
  live_protocols state (proto ∷ rest) row = do
    apr ← given (lookup proto state.lending_apr)
    live_protocols state rest (insert (apr_column proto) (number apr) row)

  -- The live row of f1 and f3.
  unfoldable pub live_row : BlockState F → Result (Row F)
  live_row state = live_protocols state state.protocols (
      ("block_number", integer state.block_number)
      ∷ ("block_timestamp", timestamp state.block_timestamp)
      ∷ [])

  -- The live row of f4.
  unfoldable pub live_row_with_gas : BlockState F → Result (Row F)
  live_row_with_gas state = live_protocols state state.protocols (
      ("block_number", integer state.block_number)
      ∷ ("block_timestamp", timestamp state.block_timestamp)
      ∷ ("gas_price_gwei", number state.gas_price_gwei)
      ∷ [])

  module _ ⦃f : Float F⦄ where
    -- The last value of a column of what a builder makes; any NaN becomes the one NaN.
    unfoldable pub last_value : String → Builder F → List (Row F) → Result F
    last_value column build frame = do
      out ← build frame
      values ← given (lookup column out)
      val ← last_item values
      ok (if f.is_nan val then f.nan else val)

    -- What the three functions share: the frame is the snapshot with the live row behind it.
    unfoldable pub compute : String → Builder F → Result (Row F) → List (Row F) → Result F
    compute column build live snapshot = do
      row ← live
      last_value column build (snapshot ++ (row ∷ []))

    unfoldable pub compute_f1 : Builder F → BlockState F → List (Row F) → Result F
    compute_f1 build state snapshot = compute f1_output_col build (live_row state) snapshot

    unfoldable pub compute_f3 : Builder F → BlockState F → List (Row F) → Result F
    compute_f3 build state snapshot = compute f3_output_col build (live_row state) snapshot

    unfoldable pub compute_f4 : Builder F → BlockState F → List (Row F) → Result F
    compute_f4 build state snapshot = compute f4_output_col build (live_row_with_gas state) snapshot
