-- ===== src/History/Columns.antt =====
-- The columns of a row: which of them are never the same.
use event_time_mcdm_agent.Common.{ℕ, ◌+◌, String, ◌≡◌, ◌≢◌, ap, sym, ◌∙◌, arith, ◌⊎◌, inl, inr}
use Prim.Native.Char.{Char, nul, code}
use Prim.Native.String.{[], ◌∷◌, ◌++◌, count}
use Prim.Native.String.count
use Prim.Native.String.append
use event_time_mcdm_agent.History.Flatten.{apr_column, utilization_column, tvl_column}

-- The last character of a text, or what stands before it.
unfoldable pub last_char : Char → String → Char
last_char d [] = d
last_char d (c ∷ s) = last_char c s

pub last_char-append : (d c : Char) (s t : String) → last_char d (s ++ (c ∷ t)) ≡ last_char c t
unfolding last_char
last_char-append d c [] t = ap (last_char d) (append.nil (c ∷ t))
last_char-append d c (b ∷ s) t =
    ap (last_char d) (append.cons b s (c ∷ t)) ∙ last_char-append b c s t

-- The last character but one, or what stands before it.
unfoldable pub last_but_one : Char → Char → String → Char
last_but_one b c [] = b
last_but_one b c (d ∷ s) = last_but_one c d s

pub last_but_one-append :
    (a b c d : Char) (s t : String) → last_but_one a b (s ++ (c ∷ (d ∷ t))) ≡ last_but_one c d t
unfolding last_but_one
last_but_one-append a b c d [] t = ap (last_but_one a b) (append.nil (c ∷ (d ∷ t)))
last_but_one-append a b c d (x ∷ s) t =
    ap (last_but_one a b) (append.cons x s (c ∷ (d ∷ t))) ∙ last_but_one-append b x c d s t

-- Two texts that end differently.
pub ends_differ :
    (x y : String)
    → (code (last_char nul x) ≢ code (last_char nul y))
      ⊎ (code (last_but_one nul nul x) ≢ code (last_but_one nul nul y))
    → x ≢ y
ends_differ x y (inl differ) e = differ (ap (λ s. code (last_char nul s)) e)
ends_differ x y (inr differ) e = differ (ap (λ s. code (last_but_one nul nul s)) e)

-- Neither of the columns that a live row leaves out.
abbrev pub IsLive : String → Type 0
IsLive column = (proto : String) → (column ≢ utilization_column proto) × (column ≢ tvl_column proto)

-- A column whose name ends in another letter.
last_char-IsLive :
    (column : String)
    → code (last_char nul column) ≢ 110
    → code (last_char nul column) ≢ 100
    → IsLive column
unfolding last_char
last_char-IsLive column not_n not_d proto = (
  λ e.
      not_n (
        ap (λ s. code (last_char nul s)) e
        ∙ ap code (last_char-append nul "_" proto "utilization")),
  λ e.
      not_d
        (ap (λ s. code (last_char nul s)) e ∙ ap code (last_char-append nul "_" proto "tvl_usd")),
)

pub apr_column-IsLive : (proto : String) → IsLive (apr_column proto)
unfolding last_char
apr_column-IsLive proto =
    last_char-IsLive (apr_column proto)
      (λ e. r-ne-n (sym (ap code (last_char-append nul "_" proto "lending_apr")) ∙ e))
      (λ e. r-ne-d (sym (ap code (last_char-append nul "_" proto "lending_apr")) ∙ e))
  where
    r-ne-n : ◌≢◌ {A = ℕ} 114 110
    r-ne-n e = absurd (omega arith)

    r-ne-d : ◌≢◌ {A = ℕ} 114 100
    r-ne-d e = absurd (omega arith)

pub block_number-IsLive : IsLive "block_number"
unfolding last_char
block_number-IsLive =
    last_char-IsLive "block_number" (λ e. absurd (omega arith)) (λ e. absurd (omega arith))

pub block_timestamp-IsLive : IsLive "block_timestamp"
unfolding last_char
block_timestamp-IsLive =
    last_char-IsLive "block_timestamp" (λ e. absurd (omega arith)) (λ e. absurd (omega arith))

pub gas_price_gwei-IsLive : IsLive "gas_price_gwei"
unfolding last_char
gas_price_gwei-IsLive =
    last_char-IsLive "gas_price_gwei" (λ e. absurd (omega arith)) (λ e. absurd (omega arith))

pub usdc_peg-IsLive : IsLive "usdc_peg"
unfolding last_char
usdc_peg-IsLive =
    last_char-IsLive "usdc_peg" (λ e. absurd (omega arith)) (λ e. absurd (omega arith))

pub usdt_peg-IsLive : IsLive "usdt_peg"
unfolding last_char
usdt_peg-IsLive =
    last_char-IsLive "usdt_peg" (λ e. absurd (omega arith)) (λ e. absurd (omega arith))

count-append : (s t : String) → count (s ++ t) ≡ count s + count t
count-append [] t = ap count (append.nil t) ∙ omega (arith, count.nil)
count-append (c ∷ s) t =
    ap count (append.cons c s t)
    ∙ omega (arith, count.cons c (s ++ t), count.cons c s, count-append s t)

-- It ends in the letter of a TVL column, but is too short for one.
pub eth_usd-IsLive : IsLive "eth_usd"
unfolding last_char
eth_usd-IsLive proto = (
  λ e.
      n-ne-d (
        ap (λ s. code (last_char nul s)) e
        ∙ ap code (last_char-append nul "_" proto "utilization")),
  λ e. absurd (too_short (ap count e ∙ count-append proto "_tvl_usd")),
)
  where
    n-ne-d : ◌≢◌ {A = ℕ} 100 110
    n-ne-d e = absurd (omega arith)

    too_short : ◌≢◌ {A = ℕ} 7 (count proto + 8)
    too_short e = absurd (omega arith)

-- A column that ends in another letter than `_lending_apr`.
pub apr_column-ne :
    (proto column : String) → code (last_char nul column) ≢ 114 → apr_column proto ≢ column
unfolding last_char
apr_column-ne proto column not_r e = not_r (
    ap (λ s. code (last_char nul s)) (sym e)
    ∙ ap code (last_char-append nul "_" proto "lending_apr"))
