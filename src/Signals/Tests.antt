-- ===== src/Signals/Tests.antt =====
-- The signals at work with builders that read the last row.
use event_time_mcdm_agent.Common.{
  List, [], ◌∷◌, ◌++◌, Option, none, some, String, string_eq, ◌≡◌, refl, sym, ap, ◌∙◌, ◌⊎◌, inl,
  inr, ok, pos,
}
use event_time_mcdm_agent.Common.Dict.{lookup, insert}
use event_time_mcdm_agent.Float.Decimal.{Decimal, num, decimal_float}
use event_time_mcdm_agent.PerBlockLoop.{BlockState}
use event_time_mcdm_agent.PerBlockLoop.Tests.{to_euler}
use event_time_mcdm_agent.History.Flatten.{Cell, number, Row, base_row, flatten_protocols, flatten}
use event_time_mcdm_agent.Signals.{
  Builder, last_value, last_item, live_protocols, live_row, live_row_with_gas, compute, compute_f1,
  compute_f3, compute_f4, f1_output_col, f3_output_col, f4_output_col,
}
use event_time_mcdm_agent.Signals.Drift.{IsRateColumn, IsGasColumn, ReadsOnly, compute_zero_drift}

abbrev state : BlockState Decimal
state = record {
  block_number = 7;
  block_timestamp = 1000;
  protocols = "aave" ∷ [];
  lending_apr = ("aave", num (pos 4)) ∷ [];
  utilization = ("aave", num (pos 1)) ∷ [];
  tvl_usd = ("aave", num (pos 9)) ∷ [];
  current_protocol = none;
  position_usd = num (pos 2);
  gas_price_gwei = num (pos 3);
  eth_price_usd = num (pos 5);
  gas_used_estimate = 6;
}

abbrev number_of : Option (Cell Decimal) → Decimal
number_of (some (number x)) = x
number_of _ = num (pos 0)

-- The value of a column in the last row.
abbrev value_in : String → List (Row Decimal) → Decimal
value_in column [] = num (pos 0)
value_in column (row ∷ []) = number_of (lookup column row)
value_in column (row ∷ next ∷ rest) = value_in column (next ∷ rest)

value_in-append :
    (column : String) (rows : List (Row Decimal)) (row : Row Decimal)
    → value_in column (rows ++ (row ∷ [])) ≡ number_of (lookup column row)
value_in-append column [] row = refl
value_in-append column (r ∷ []) row = refl
value_in-append column (r ∷ next ∷ rest) row = value_in-append column (next ∷ rest) row

abbrev show : String → String → Builder Decimal
show output column rows = ok ((output, value_in column rows ∷ []) ∷ [])

show-ReadsOnly :
    (reads : String → Type 0) (output column : String)
    → reads column
    → ReadsOnly reads (show output column)
show-ReadsOnly reads output column r rows a b same =
    ap (λ (x : Decimal). ok ((output, x ∷ []) ∷ []))
      (value_in-append column rows a
        ∙ ap number_of (same column r)
        ∙ sym (value_in-append column rows b))

abbrev row : Row Decimal
row =
    base_row state to_euler
    ++ (("aave_lending_apr", number (num (pos 4)))
        ∷ ("aave_utilization", number (num (pos 1)))
        ∷ ("aave_tvl_usd", number (num (pos 9)))
        ∷ [])

flat : flatten state to_euler ≡ ok row
unfolding flatten flatten_protocols base_row lookup insert
flat = refl

-- The rate and the gas price of the live block.
live_values :
    (compute_f3 (show f3_output_col "aave_lending_apr") state [] ≡ ok (num (pos 4)))
    × (compute_f4 (show f4_output_col "gas_price_gwei") state [] ≡ ok (num (pos 3)))
unfolding compute_f3 compute_f4 compute last_value last_item live_row live_row_with_gas
    live_protocols lookup insert
live_values = (refl, refl)

compute_zero_drift_example :
    (compute_f1 (show f1_output_col "aave_lending_apr") state (row ∷ [])
      ≡ last_value f1_output_col (show f1_output_col "aave_lending_apr") ((row ∷ []) ++ (row ∷ [])))
    × (compute_f3 (show f3_output_col "aave_lending_apr") state (row ∷ [])
        ≡ last_value f3_output_col
            (show f3_output_col "aave_lending_apr")
            ((row ∷ []) ++ (row ∷ [])))
    × (compute_f4 (show f4_output_col "gas_price_gwei") state (row ∷ [])
        ≡ last_value f4_output_col (show f4_output_col "gas_price_gwei") ((row ∷ []) ++ (row ∷ [])))
compute_zero_drift_example =
    compute_zero_drift state to_euler row (row ∷ []) (show f1_output_col "aave_lending_apr")
      (show f3_output_col "aave_lending_apr") (show f4_output_col "gas_price_gwei") flat
      (show-ReadsOnly IsRateColumn f1_output_col "aave_lending_apr" (inr (inr ("aave", refl))))
      (show-ReadsOnly IsRateColumn f3_output_col "aave_lending_apr" (inr (inr ("aave", refl))))
      (show-ReadsOnly (λ column. IsRateColumn column ⊎ IsGasColumn column) f4_output_col
        "gas_price_gwei" (inr (inl refl)))
