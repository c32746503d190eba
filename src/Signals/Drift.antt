-- ===== src/Signals/Drift.antt =====
-- agent/signals/: the zero drift of the signals, between the live block and the stored row of it.
use event_time_mcdm_agent.Common.{
  List, [], ◌∷◌, ◌++◌, String, string_eq, ◌≡◌, refl, sym, ◌⊎◌, inl, inr, ok,
}
use event_time_mcdm_agent.Common.Dict.{lookup}
use event_time_mcdm_agent.Float.{Float}
use event_time_mcdm_agent.PerBlockLoop.{BlockState, Action}
use event_time_mcdm_agent.History.Flatten.{
  Row, integer, timestamp, number, apr_column, base_row, flatten_protocols, flatten,
}
use event_time_mcdm_agent.History.Columns.{
  IsLive, apr_column-IsLive, block_number-IsLive, block_timestamp-IsLive, gas_price_gwei-IsLive,
  eth_usd-IsLive, usdc_peg-IsLive, usdt_peg-IsLive,
}
use event_time_mcdm_agent.Signals.{
  Builder, live_protocols, live_row, live_row_with_gas, last_value, compute, compute_f1, compute_f3,
  compute_f4, f1_output_col, f3_output_col, f4_output_col,
}
use event_time_mcdm_agent.Signals.Rows.{
  live_protocols-flatten_protocols, lookup-same_head, base_others, base-IsOther, gas-IsOther,
}

-- The columns that the builders of f1 and f3 read, and the further ones of f4.
abbrev pub IsRateColumn : String → Type 0
IsRateColumn column =
    (column ≡ "block_number")
    ⊎ (column ≡ "block_timestamp")
    ⊎ ((proto : String) × (column ≡ apr_column proto))

abbrev pub IsGasColumn : String → Type 0
IsGasColumn column =
    (column ≡ "gas_price_gwei")
    ⊎ (column ≡ "eth_usd")
    ⊎ (column ≡ "usdc_peg")
    ⊎ (column ≡ "usdt_peg")

module _ {F : Type 0} where
  -- A builder that reads no other column of the last row.
  abbrev pub ReadsOnly : (String → Type 0) → Builder F → Type 0
  ReadsOnly reads build =
      (rows : List (Row F)) (a b : Row F)
      → ((column : String) → reads column → lookup column a ≡ lookup column b)
      → build (rows ++ (a ∷ [])) ≡ build (rows ++ (b ∷ []))

  rate_base :
      (state : BlockState F) (action : Action) (column : String)
      → IsRateColumn column
      → IsLive column
        × (lookup column (base_row state action)
            ≡ lookup column (
                ("block_number", integer state.block_number)
                ∷ ("block_timestamp", timestamp state.block_timestamp)
                ∷ []))
  unfolding lookup base_row
  rate_base state action column (inl e) = rw e (block_number-IsLive, refl)
  rate_base state action column (inr (inl e)) = rw e (block_timestamp-IsLive, refl)
  rate_base state action column (inr (inr (proto, e))) = rw e (
    apr_column-IsLive proto,
    lookup-same_head proto ("block_number", integer state.block_number)
        ("block_timestamp", timestamp state.block_timestamp) (base_others state action) []
        (base-IsOther state action) tt,
  )

  gas_base :
      (state : BlockState F) (action : Action) (column : String)
      → IsRateColumn column ⊎ IsGasColumn column
      → IsLive column
        × (lookup column (base_row state action)
            ≡ lookup column (
                ("block_number", integer state.block_number)
                ∷ ("block_timestamp", timestamp state.block_timestamp)
                ∷ ("gas_price_gwei", number state.gas_price_gwei)
                ∷ []))
  unfolding lookup base_row
  gas_base state action column (inl (inl e)) = rw e (block_number-IsLive, refl)
  gas_base state action column (inl (inr (inl e))) = rw e (block_timestamp-IsLive, refl)
  gas_base state action column (inl (inr (inr (proto, e)))) = rw e (
    apr_column-IsLive proto,
    lookup-same_head proto ("block_number", integer state.block_number)
        ("block_timestamp", timestamp state.block_timestamp) (base_others state action)
        (("gas_price_gwei", number state.gas_price_gwei) ∷ []) (base-IsOther state action)
        (gas-IsOther (number state.gas_price_gwei)),
  )
  gas_base state action column (inr (inl e)) = rw e (gas_price_gwei-IsLive, refl)
  gas_base state action column (inr (inr (inl e))) = rw e (eth_usd-IsLive, refl)
  gas_base state action column (inr (inr (inr (inl e)))) = rw e (usdc_peg-IsLive, refl)
  gas_base state action column (inr (inr (inr (inr e)))) = rw e (usdt_peg-IsLive, refl)

  module _ ⦃f : Float F⦄ where
    -- The live row is there, and a builder that reads what the rows share cannot tell them apart.
    compute-eq-last_value :
        (reads : String → Type 0) (state : BlockState F) (base live row : Row F) (column : String)
        (build : Builder F) (snapshot : List (Row F))
        → ((c : String) → reads c → IsLive c × (lookup c base ≡ lookup c live))
        → flatten_protocols state state.protocols base ≡ ok row
        → ReadsOnly reads build
        → compute column build (live_protocols state state.protocols live) snapshot
          ≡ last_value column build (snapshot ++ (row ∷ []))
    unfolding compute last_value
    compute-eq-last_value reads state base live row column build snapshot shared flat reads_only =
        let (live', returned, agree) =
          live_protocols-flatten_protocols state state.protocols base live row flat in
        rw returned (
          rw (reads_only snapshot live' row (λ c r. sym (agree c (shared c r).0 (shared c r).1)))
            refl)

    -- Zero drift: when the block's state is stored as a row, each of the three signals has at the live
    -- block the value, or the exception, that its builder gives on the snapshot with the stored row
    -- behind it, for builders that read the block, the lending rates, and for f4 the gas price and the
    -- pegs.
    pub compute_zero_drift :
        (state : BlockState F) (action : Action) (row : Row F) (snapshot : List (Row F))
        (build_f1 build_f3 build_f4 : Builder F)
        → flatten state action ≡ ok row
        → ReadsOnly IsRateColumn build_f1
        → ReadsOnly IsRateColumn build_f3
        → ReadsOnly (λ column. IsRateColumn column ⊎ IsGasColumn column) build_f4
        → (compute_f1 build_f1 state snapshot
            ≡ last_value f1_output_col build_f1 (snapshot ++ (row ∷ [])))
          × (compute_f3 build_f3 state snapshot
              ≡ last_value f3_output_col build_f3 (snapshot ++ (row ∷ [])))
          × (compute_f4 build_f4 state snapshot
              ≡ last_value f4_output_col build_f4 (snapshot ++ (row ∷ [])))
    unfolding compute_f1 compute_f3 compute_f4 live_row live_row_with_gas flatten
    compute_zero_drift state action row snapshot build_f1 build_f3 build_f4 flat r1 r3 r4 =
        let base = base_row state action in
        (
          compute-eq-last_value IsRateColumn state base _ row f1_output_col build_f1 snapshot
              (rate_base state action) flat r1,
          compute-eq-last_value IsRateColumn state base _ row f3_output_col build_f3 snapshot
              (rate_base state action) flat r3,
          compute-eq-last_value (λ column. IsRateColumn column ⊎ IsGasColumn column) state base _
              row f4_output_col build_f4 snapshot (gas_base state action) flat r4,
        )
