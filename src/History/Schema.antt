-- ===== src/History/Schema.antt =====
-- The columns of a row of the history, each of one kind: what a column of a parquet file needs.
use event_time_mcdm_agent.Common.{
  ℕ, List, [], ◌∷◌, All, Option, none, some, String, string_eq, Bool, true, false, ◌==◌,
  if◌then◌else◌, ◌≡◌, ◌≢◌, refl, ap, sym, ◌∙◌, subst, ◌⊎◌, inl, inr, ok, arith, >>=-eq-ok,
  ok_injective, some_injective, same→eq, Bool-cases,
}
use event_time_mcdm_agent.Common.Dict.{Dict, lookup, insert, lookup-insert}
use Prim.Native.Char.{nul, code}
use event_time_mcdm_agent.PerBlockLoop.{BlockState, Action}
use event_time_mcdm_agent.History.Columns.{
  last_char, last_char-append, last_but_one, last_but_one-append, ends_differ,
}
use event_time_mcdm_agent.History.Flatten.{
  Cell, integer, timestamp, number, word, Row, apr_column, utilization_column, tvl_column, given,
  base_row, flatten_protocols, flatten,
}

pub data Kind : Type 0 where
  integers timestamps numbers words : Kind

abbrev pub kind : {F : Type 0} → Cell F → Kind
kind (integer n) = integers
kind (timestamp t) = timestamps
kind (number x) = numbers
kind (word s) = words

-- The columns that do not belong to a protocol.
abbrev pub fixed_kinds : Dict String Kind
fixed_kinds =
    ("block_number", integers)
    ∷ ("block_timestamp", timestamps)
    ∷ ("current_protocol", words)
    ∷ ("position_usd", numbers)
    ∷ ("gas_price_gwei", numbers)
    ∷ ("eth_price_usd", numbers)
    ∷ ("gas_used_estimate", integers)
    ∷ ("action_kind", words)
    ∷ ("action_target", words)
    ∷ ("action_rationale", words)
    ∷ []

abbrev pub or_numbers : Option Kind → Kind
or_numbers none = numbers
or_numbers (some k) = k

-- The kind of a column, by its name alone.
unfoldable pub kind_of : String → Kind
kind_of column = or_numbers (lookup column fixed_kinds)

-- Every cell of a row is of its column's kind.
abbrev pub HasSchema : {F : Type 0} → Row F → Type 0
HasSchema {F} row =
    (column : String) (cell : Cell F) → lookup column row ≡ some cell → kind cell ≡ kind_of column

-- A column is numeric if every fixed column of another kind has another name.
lookup-numbers :
    (column : String) (d : Dict String Kind)
    → All (λ (entry : String × Kind). (entry.1 ≡ numbers) ⊎ (entry.0 ≢ column)) d
    → or_numbers (lookup column d) ≡ numbers
unfolding lookup
lookup-numbers column [] h = refl
lookup-numbers column ((name, k) ∷ d) (h, hs) = elim (Bool-cases (name == column)) [
  | inl same ↦
      rw same (elim h [ inl e ↦ e | inr differ ↦ absurd (differ (same→eq name column same)) ])
  | inr other ↦ rw other (lookup-numbers column d hs)
]

-- No fixed column that is not numeric ends like this.
kind_of-numbers :
    (column : String) (l s : ℕ)
    → code (last_char nul column) ≡ l
    → code (last_but_one nul nul column) ≡ s
    → (l ≢ 112) × (l ≢ 108) × (l ≢ 101) × (l ≢ 116) × (s ≢ 101) × (s ≢ 110)
    → kind_of column ≡ numbers
unfolding kind_of last_char last_but_one
kind_of-numbers column l s last second (not_p, not_l, not_e, not_t, second_e, second_n) =
    lookup-numbers column fixed_kinds (
      inr (ends_differ "block_number" column (inr (λ e. second_e (sym second ∙ sym e)))),
      (
        inr (ends_differ "block_timestamp" column (inl (λ e. not_p (sym last ∙ sym e)))),
        (
          inr (ends_differ "current_protocol" column (inl (λ e. not_l (sym last ∙ sym e)))),
          (
            inl refl,
            (
              inl refl,
              (
                inl refl,
                (
                  inr (
                      ends_differ "gas_used_estimate" column (inl (λ e. not_e (sym last ∙ sym e)))),
                  (
                    inr (
                        ends_differ "action_kind" column
                          (inr (λ e. second_n (sym second ∙ sym e)))),
                    (
                      inr (
                          ends_differ "action_target" column (inl (λ e. not_t (sym last ∙ sym e)))),
                      (
                        inr (
                            ends_differ "action_rationale" column
                              (inl (λ e. not_e (sym last ∙ sym e)))),
                        tt,
                      ),
                    ),
                  ),
                ),
              ),
            ),
          ),
        ),
      ),
    )

kind_of-apr_column : (proto : String) → kind_of (apr_column proto) ≡ numbers
unfolding last_char last_but_one
kind_of-apr_column proto =
    kind_of-numbers (apr_column proto) 114 112
      (ap code (last_char-append nul "_" proto "lending_apr"))
      (ap code (last_but_one-append nul nul "_" "l" proto "ending_apr")) (ground arith)

kind_of-utilization_column : (proto : String) → kind_of (utilization_column proto) ≡ numbers
unfolding last_char last_but_one
kind_of-utilization_column proto =
    kind_of-numbers (utilization_column proto) 110 111
      (ap code (last_char-append nul "_" proto "utilization"))
      (ap code (last_but_one-append nul nul "_" "u" proto "tilization")) (ground arith)

kind_of-tvl_column : (proto : String) → kind_of (tvl_column proto) ≡ numbers
unfolding last_char last_but_one
kind_of-tvl_column proto =
    kind_of-numbers (tvl_column proto) 100 115 (ap code (last_char-append nul "_" proto "tvl_usd"))
      (ap code (last_but_one-append nul nul "_" "t" proto "vl_usd")) (ground arith)

module _ {F : Type 0} where
  HasSchema-insert :
      (k : String) (v : Cell F) (row : Row F)
      → kind v ≡ kind_of k
      → HasSchema row
      → HasSchema (insert k v row)
  HasSchema-insert k v row e h column cell found = elim (Bool-cases (k == column)) [
    | inl same ↦
        subst (λ c. kind cell ≡ kind_of c) (same→eq k column same)
          (ap kind (
              some_injective cell v (
                sym found
                ∙ lookup-insert k column v row
                ∙ ap (λ b. if b then some v else lookup column row) same))
            ∙ e)
    | inr other ↦ h column cell (
        sym (lookup-insert k column v row ∙ ap (λ b. if b then some v else lookup column row) other)
        ∙ found)
  ]

  HasSchema-cons :
      (k : String) (v : Cell F) (row : Row F)
      → kind v ≡ kind_of k
      → HasSchema row
      → HasSchema ((k, v) ∷ row)
  unfolding lookup
  HasSchema-cons k v row e h column cell found = by_name (k == column) refl found
    where
      by_name :
          (b : Bool)
          → (k == column) ≡ b
          → (if b then some v else lookup column row) ≡ some cell
          → kind cell ≡ kind_of column
      by_name true same now =
          subst (λ c. kind cell ≡ kind_of c) (same→eq k column same)
            (ap kind (some_injective cell v (sym now)) ∙ e)
      by_name false other later = h column cell later

  HasSchema-All :
      (row : Row F)
      → All (λ (entry : String × Cell F). kind entry.1 ≡ kind_of entry.0) row
      → HasSchema row
  unfolding lookup
  HasSchema-All [] h = λ column cell found. cc
  HasSchema-All ((k, v) ∷ row) (e, h) = HasSchema-cons k v row e (HasSchema-All row h)

  HasSchema-base_row : (state : BlockState F) (action : Action) → HasSchema (base_row state action)
  unfolding base_row lookup kind_of
  HasSchema-base_row state action =
      HasSchema-All (base_row state action)
        (refl, (refl, (refl, (refl, (refl, (refl, (refl, (refl, (refl, (refl, tt))))))))))

  HasSchema-flatten_protocols :
      (state : BlockState F) (protos : List String) (row row' : Row F)
      → HasSchema row
      → flatten_protocols state protos row ≡ ok row'
      → HasSchema row'
  unfolding flatten_protocols
  HasSchema-flatten_protocols state [] row row' h e = subst HasSchema (ok_injective _ _ e) h
  HasSchema-flatten_protocols state (proto ∷ rest) row row' h e =
      let (apr, e1, h1) = >>=-eq-ok (given (lookup proto state.lending_apr)) _ e in
      let (used, e2, h2) = >>=-eq-ok (given (lookup proto state.utilization)) _ h1 in
      let (tvl, e3, h3) = >>=-eq-ok (given (lookup proto state.tvl_usd)) _ h2 in
      HasSchema-flatten_protocols state rest _ row'
        (HasSchema-insert (tvl_column proto) (number tvl) _ (sym (kind_of-tvl_column proto)) (
          HasSchema-insert (utilization_column proto) (number used) _
            (sym (kind_of-utilization_column proto))
            (HasSchema-insert (apr_column proto) (number apr) row (sym (kind_of-apr_column proto))
              h)))
        h3

  -- A row of any block, whatever its protocols are called, has cells of the kinds that the names of
  -- their columns fix; so the cells of a column are of one kind in all rows.
  pub flatten-HasSchema :
      (state : BlockState F) (action : Action) (row : Row F)
      → flatten state action ≡ ok row
      → HasSchema row
  unfolding flatten
  flatten-HasSchema state action row e =
      HasSchema-flatten_protocols state state.protocols (base_row state action) row
        (HasSchema-base_row state action) e
