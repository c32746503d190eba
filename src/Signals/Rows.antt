-- ===== src/Signals/Rows.antt =====
-- The columns of the live row of a signal, and of the row that the history keeps of the same block.
use event_time_mcdm_agent.Common.{
  List, [], ◌∷◌, All, none, some, String, string_eq, ◌==◌, if◌then◌else◌, ◌≡◌, ◌≢◌, refl, ap, sym,
  ◌∙◌, arith, ok, >>=-eq-ok, ok_injective,
}
use event_time_mcdm_agent.Common.Dict.{lookup, insert, lookup-insert}
use event_time_mcdm_agent.PerBlockLoop.{BlockState, Action}
use event_time_mcdm_agent.History.Flatten.{
  Cell, word, or_empty, integer, number, Row, apr_column, utilization_column, tvl_column, given,
  flatten_protocols,
}
use Prim.Native.Char.{nul, code}
use event_time_mcdm_agent.History.Columns.{last_char, apr_column-ne, IsLive}
use event_time_mcdm_agent.Signals.{live_protocols}

module _ {F : Type 0} where
  lookup-insert_other :
      (k j : String) (v : Cell F) (row : Row F) → j ≢ k → lookup j (insert k v row) ≡ lookup j row
  lookup-insert_other k j v row h = ground (arith, lookup-insert k j v row, string_eq.same_iff k j)

  -- The columns that a live row leaves out do not touch those that it has.
  beside :
      (column proto : String) (used tvl : F) (row : Row F)
      → IsLive column
      → lookup column (
          insert
            (tvl_column proto)
            (number tvl)
            (insert (utilization_column proto) (number used) row))
        ≡ lookup column row
  beside column proto used tvl row is_live =
      lookup-insert_other (tvl_column proto) column (number tvl)
        (insert (utilization_column proto) (number used) row) (is_live proto).1
      ∙ lookup-insert_other (utilization_column proto) column (number used) row (is_live proto).0

  -- One protocol of the loops.
  insert-agree :
      (column proto : String) (apr used tvl : F) (row live : Row F)
      → IsLive column
      → lookup column row ≡ lookup column live
      → lookup column (
          insert (tvl_column proto) (number tvl) (
            insert
              (utilization_column proto)
              (number used)
              (insert (apr_column proto) (number apr) row)))
        ≡ lookup column (insert (apr_column proto) (number apr) live)
  insert-agree column proto apr used tvl row live is_live e =
      beside column proto used tvl (insert (apr_column proto) (number apr) row) is_live
      ∙ lookup-insert (apr_column proto) column (number apr) row
      ∙ ap (λ l. if apr_column proto == column then some (number apr) else l) e
      ∙ sym (lookup-insert (apr_column proto) column (number apr) live)

  pub live_protocols-flatten_protocols :
      (state : BlockState F) (rest : List String) (row live row' : Row F)
      → flatten_protocols state rest row ≡ ok row'
      → (live' : Row F) × (live_protocols state rest live ≡ ok live')
        × ((column : String)
            → IsLive column
            → lookup column row ≡ lookup column live
            → lookup column row' ≡ lookup column live')
  unfolding live_protocols flatten_protocols
  live_protocols-flatten_protocols state [] row live row' e =
      (live, refl, λ column is_live same. ap (lookup column) (sym (ok_injective row row' e)) ∙ same)
  live_protocols-flatten_protocols state (proto ∷ rest) row live row' e =
      let (apr, apr_given, e1) = >>=-eq-ok (given (lookup proto state.lending_apr)) _ e in
      let (used, used_given, e2) = >>=-eq-ok (given (lookup proto state.utilization)) _ e1 in
      let (tvl, tvl_given, e3) = >>=-eq-ok (given (lookup proto state.tvl_usd)) _ e2 in
      let (live', returned, agree) =
        live_protocols-flatten_protocols state rest
          (insert (tvl_column proto) (number tvl) (
            insert (utilization_column proto) (number used)
              (insert (apr_column proto) (number apr) row)))
          (insert (apr_column proto) (number apr) live) row' e3 in
      (
        live',
        rw apr_given returned,
        λ column is_live same.
            agree column is_live (insert-agree column proto apr used tvl row live is_live same),
      )

  -- An entry whose name ends in another letter than `_lending_apr`.
  abbrev pub IsOther : String × Cell F → Type 0
  IsOther (column, v) = code (last_char nul column) ≢ 114

  lookup-none :
      (proto : String) (row : Row F) → All IsOther row → lookup (apr_column proto) row ≡ none
  unfolding lookup
  lookup-none proto [] others = refl
  lookup-none proto ((column, v) ∷ row) (other, others) =
      ground
        (arith, lookup-none proto row others, string_eq.same_iff column (apr_column proto), unequal)
    where
      unequal : apr_column proto ≢ column
      unequal = apr_column-ne proto column other

  pub lookup-same_head :
      (proto : String) (x y : String × Cell F) (row live : Row F)
      → All IsOther row
      → All IsOther live
      → lookup (apr_column proto) (x ∷ y ∷ row) ≡ lookup (apr_column proto) (x ∷ y ∷ live)
  unfolding lookup
  lookup-same_head proto x y row live p q =
      ap
        (λ rest.
          if x.0 == apr_column proto
          then some x.1
          else (if y.0 == apr_column proto then some y.1 else rest))
        (lookup-none proto row p ∙ sym (lookup-none proto live q))

  abbrev pub base_others : BlockState F → Action → Row F
  base_others state action =
      ("current_protocol", word (or_empty state.current_protocol))
      ∷ ("position_usd", number state.position_usd)
      ∷ ("gas_price_gwei", number state.gas_price_gwei)
      ∷ ("eth_price_usd", number state.eth_price_usd)
      ∷ ("gas_used_estimate", integer state.gas_used_estimate)
      ∷ ("action_kind", word action.kind)
      ∷ ("action_target", word (or_empty action.target_protocol))
      ∷ ("action_rationale", word action.rationale)
      ∷ []

  pub base-IsOther :
      (state : BlockState F) (action : Action) → All IsOther (base_others state action)
  unfolding last_char
  base-IsOther state action = (
    λ e. absurd (omega arith),
    (
      λ e. absurd (omega arith),
      (
        λ e. absurd (omega arith),
        (
          λ e. absurd (omega arith),
          (
            λ e. absurd (omega arith),
            (
              λ e. absurd (omega arith),
              (λ e. absurd (omega arith), (λ e. absurd (omega arith), tt)),
            ),
          ),
        ),
      ),
    ),
  )

  pub gas-IsOther : (gas : Cell F) → All IsOther (("gas_price_gwei", gas) ∷ [])
  unfolding last_char
  gas-IsOther gas = (λ e. absurd (omega arith), tt)
