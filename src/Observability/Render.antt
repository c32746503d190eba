-- ===== src/Observability/Render.antt =====
-- `MetricsRegistry.render` up to the text of its lines. What Python's `str` and `sum` make of numbers
-- is an argument.
use event_time_mcdm_agent.Common.{
  ℕ, suc, ◌-◌, ◌/◌, ℤ, pos, negsuc, ◌-ℤ◌, ltb_ℤ, leb, List, [], ◌∷◌, ◌++◌, length, get_elem?,
  Option, none, some, String, Bool, true, false, if◌then◌else◌, ◌==◌, string_eq, pair_eq, list_eq,
  Result, ok, raised, index_error, ◌>>=◌,
}
use event_time_mcdm_agent.Common.Dict.{Dict, lookup}
use event_time_mcdm_agent.Float.{Float}
use event_time_mcdm_agent.Observability.Registry.{
  MetricKey, MetricsRegistry, or_default, sort_labels,
}

pub record Builtins (F : Type 0) : Type 0 where
  pub str_float : F → String
  pub str_int : ℕ → String
  pub sum : List F → F

-- A line of the document, before it is text.
pub data Line (F : Type 0) : Type 0 where
  help_line : String → String → Line F
  type_line : String → String → Line F
  count_line : MetricKey → ℕ → Line F
  sum_line : MetricKey → F → Line F
  quantile_line : MetricKey → String → F → Line F
  sample_line : MetricKey → F → Line F

-- name in written
unfoldable pub is_written : String → List String → Bool
is_written name [] = false
is_written name (w ∷ ws) = let later = is_written name ws in if w == name then true else later

unfoldable pub mark : String → List String → List String
mark name written = if is_written name written then written else name ∷ written

abbrev pub found {ℓ} : {A : Type ℓ} → Option A → Result A
found none = raised index_error
found (some x) = ok x

-- `xs[i]` of a list: a negative index counts from the end.
unfoldable pub index {ℓ} : {A : Type ℓ} → List A → ℤ → Result A
index xs (pos i) = found (get_elem? xs i)
index xs (negsuc i) =
    found (if leb (suc i) (length xs) then get_elem? xs (length xs - suc i) else none)

-- min(i, j)
abbrev pub min_ℤ : ℤ → ℤ → ℤ
min_ℤ i j = if ltb_ℤ j i then j else i

abbrev pub names : Dict String String → List String
names [] = []
names ((name, help) ∷ rest) = name ∷ names rest

module _ {F : Type 0} ⦃f : Float F⦄ where
  -- sorted(val)
  unfoldable pub insert_value : F → List F → List F
  insert_value x [] = x ∷ []
  insert_value x (y ∷ ys) =
      let later = insert_value x ys in if f.lt x y then x ∷ y ∷ ys else y ∷ later

  unfoldable pub sort_onto : List F → List F → List F
  sort_onto [] sorted = sorted
  sort_onto (x ∷ xs) sorted = sort_onto xs (insert_value x sorted)

  -- v[min(int(q * n), n - 1)]
  unfoldable pub quantile : F → List F → Result F
  quantile q v =
      let n = length v in index v (min_ℤ (f.truncate (f.mul q (f.ratio n 1))) (pos n -ℤ pos 1))

  -- The lines of a histogram.
  unfoldable pub summary_lines : Builtins F → MetricKey → List F → Result (List (Line F))
  summary_lines b key [] = ok []
  summary_lines b key (x ∷ xs) =
      let v = sort_onto (x ∷ xs) [] in
      let n = length v in
      do
        p50 ← index v (pos (n / 2))
        p95 ← quantile (f.ratio 95 100) v
        p99 ← quantile (f.ratio 99 100) v
        ok (
            count_line key n
            ∷ sum_line key (b.sum v)
            ∷ quantile_line key "0.5" p50
            ∷ quantile_line key "0.95" p95
            ∷ quantile_line key "0.99" p99
            ∷ [])

  unfoldable pub sample_lines : MetricKey → F → Result (List (Line F))
  sample_lines key value = ok (sample_line key value ∷ [])

  -- What a name that no line has declared gets.
  unfoldable pub header_lines : MetricsRegistry F → String → String → List String → List (Line F)
  header_lines r kind name written =
      if is_written name written
      then []
      else help_line name (or_default "" (lookup name r.help_text))
        ∷ type_line name (or_default kind (lookup name r.metric_type))
        ∷ []

  -- One of the three stores, with the names that are written after it.
  unfoldable pub store_lines :
      {V : Type 0}
      → MetricsRegistry F
      → String
      → (MetricKey → V → Result (List (Line F)))
      → Dict MetricKey V
      → List String
      → Result (List (Line F) × List String)
  store_lines r kind value_lines [] written = ok ([], written)
  store_lines r kind value_lines (((name, labels), val) ∷ rest) written = do
    body ← value_lines (name, labels) val
    later ← store_lines r kind value_lines rest (mark name written)
    ok (header_lines r kind name written ++ body ++ later.0, later.1)

  -- The names of `help_text` in their order, with their texts.
  unfoldable pub declared_lines : MetricsRegistry F → Dict String String → List (Line F)
  declared_lines r [] = []
  declared_lines r ((name, help) ∷ rest) =
      help_line name help
      ∷ type_line name (or_default "gauge" (lookup name r.metric_type))
      ∷ declared_lines r rest

  unfoldable pub render_lines : Builtins F → MetricsRegistry F → Result (List (Line F))
  render_lines b r =
      let declared = sort_labels r.help_text in
      do
        counters ← store_lines r "counter" sample_lines r.counters (names declared)
        gauges ← store_lines r "gauge" sample_lines r.gauges counters.1
        summaries ← store_lines r "summary" (summary_lines b) r.histograms gauges.1
        ok (declared_lines r declared ++ counters.0 ++ gauges.0 ++ summaries.0)
