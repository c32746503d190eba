-- ===== src/Observability/Headers.antt =====
-- agent/observability.py: the document of the registry is made, and types each metric once.
use event_time_mcdm_agent.Common.{
  suc, ◌^◌, ◌<◌, List, [], ◌∷◌, ◌++◌, length, All, In, In-append, AllDistinct, AllDistinct-append,
  true, false, Bool-cases, ◌≡◌, refl, ap, subst, ◌⊎◌, inl, inr, ◌↔◌, arith, String, string_eq,
  Result, ok,
}
use event_time_mcdm_agent.Common.Dict.{Dict, lookup}
use event_time_mcdm_agent.Float.{Float}
use event_time_mcdm_agent.Float.Laws.{IsIeee}
use event_time_mcdm_agent.Observability.Registry.{
  MetricKey, MetricsRegistry, sort_labels, or_default, declare, declare_all,
}
use event_time_mcdm_agent.Observability.Render.{
  Builtins, Line, help_line, type_line, count_line, sum_line, quantile_line, sample_line,
  is_written, mark, names, sample_lines, summary_lines, header_lines, store_lines, declared_lines,
  render_lines,
}
use event_time_mcdm_agent.Observability.Sorted.{AllDistinct-sort_labels, AllDistinct-insert}
use event_time_mcdm_agent.Observability.Quantile.{summary, summary_lines-In}

abbrev pub types_of : {F : Type 0} → List (Line F) → List String
types_of [] = []
types_of (type_line name kind ∷ ls) = name ∷ types_of ls
types_of (_ ∷ ls) = types_of ls

types_of-append :
    {F : Type 0} → (xs ys : List (Line F)) → types_of (xs ++ ys) ≡ types_of xs ++ types_of ys
types_of-append [] ys = refl
types_of-append (type_line name kind ∷ xs) ys = ap (λ t. name ∷ t) (types_of-append xs ys)
types_of-append (help_line _ _ ∷ xs) ys = types_of-append xs ys
types_of-append (count_line _ _ ∷ xs) ys = types_of-append xs ys
types_of-append (sum_line _ _ ∷ xs) ys = types_of-append xs ys
types_of-append (quantile_line _ _ _ ∷ xs) ys = types_of-append xs ys
types_of-append (sample_line _ _ ∷ xs) ys = types_of-append xs ys

is_written_lem : (name : String) (ws : List String) → (is_written name ws ≡ true) ↔ In name ws
unfolding is_written
is_written_lem name [] = (λ e. cc, λ i. elim i [ ])
is_written_lem name (w ∷ ws) = ground (arith, string_eq.same_iff w name, is_written_lem name ws)

module _ {F : Type 0} ⦃f : Float F⦄ where
  -- The lines type new names only, each once, and the names that are written afterwards have them.
  abbrev Adds : List String → List (Line F) → List String → Type 0
  Adds written ls written' =
      AllDistinct (types_of ls)
      × ((t : String) → In t (types_of ls) → ¬ In t written)
      × ((t : String) → (In t written) ⊎ (In t (types_of ls)) → In t written')

  Adds-append :
      (w w' w'' : List String) (xs ys : List (Line F))
      → Adds w xs w'
      → Adds w' ys w''
      → Adds w (xs ++ ys) w''
  Adds-append w w' w'' xs ys (d, new, grow) (d', new', grow') = rw (types_of-append xs ys) (
    AllDistinct-append (types_of xs) (types_of ys) d d' (λ t i j. new' t j (grow t (inr i))),
    λ t i. elim (split t i) [ inl j ↦ new t j | inr j ↦ λ k. new' t j (grow t (inl k)) ],
    λ t m. elim m [
      | inl k ↦ grow' t (inl (grow t (inl k)))
      | inr i ↦ elim (split t i) [
        | inl j ↦ grow' t (inl (grow t (inr j)))
        | inr j ↦ grow' t (inr j)
      ]
    ],
  )
    where
      split :
          (t : String) → In t (types_of xs ++ types_of ys) → In t (types_of xs) ⊎ In t (types_of ys)
      split t = (In-append t (types_of xs) (types_of ys)).0

  none-Adds : (w : List String) (ls : List (Line F)) → types_of ls ≡ [] → Adds w ls w
  none-Adds w ls h = rw h (tt, λ t i. elim i [ ], λ t m. elim m [ inl k ↦ k | inr i ↦ elim i [ ] ])

  one-Adds :
      (name : String) (w : List String) (ls : List (Line F))
      → types_of ls ≡ name ∷ []
      → ¬ In name w
      → Adds w ls (name ∷ w)
  one-Adds name w ls h new = rw h (
    (λ i. elim i [ ], tt),
    λ t i k. elim i [ inl e ↦ new (subst (λ s. In s w) e k) | inr j ↦ elim j [ ] ],
    λ t m. elim m [ inl k ↦ inr k | inr i ↦ elim i [ inl e ↦ inl e | inr j ↦ elim j [ ] ] ],
  )

  header_lines-Adds :
      (r : MetricsRegistry F) (kind name : String) (w : List String)
      → Adds w (header_lines r kind name w) (mark name w)
  unfolding header_lines mark
  header_lines-Adds r kind name w = elim (Bool-cases (is_written name w)) [
    | inl e ↦ rw e (none-Adds w [] refl)
    | inr e ↦ rw e (
        one-Adds name w
          (help_line name (or_default "" (lookup name r.help_text))
            ∷ type_line name (or_default kind (lookup name r.metric_type))
            ∷ [])
          refl (λ i. unwritten e ((is_written_lem name w).1 i)))
  ]
    where
      unwritten : is_written name w ≡ false → is_written name w ≡ true → ⊥
      unwritten e h = cc

  module _ {V : Type 0} (r : MetricsRegistry F) (kind : String)
      (value_lines : MetricKey → V → Result (List (Line F))) where
    -- The lines of each value are there, and type nothing.
    abbrev IsPlain : MetricKey × V → Type 0
    IsPlain (key, val) = (ls : List (Line F)) × (value_lines key val ≡ ok ls) × (types_of ls ≡ [])

    store_lines-Adds :
        (store : Dict MetricKey V) (w : List String)
        → All IsPlain store
        → (ls : List (Line F)) × (w' : List String) × (store_lines r kind value_lines store w
            ≡ ok (ls, w'))
          × Adds w ls w'
    unfolding store_lines
    store_lines-Adds [] w plain = ([], w, refl, none-Adds w [] refl)
    store_lines-Adds (((name, labels), val) ∷ rest) w ((body, e, none_typed), plain) =
        let (later, w', e', added) = store_lines-Adds rest (mark name w) plain in
        let headed = header_lines-Adds r kind name w in
        (
          header_lines r kind name w ++ body ++ later,
          w',
          rw (e, e') refl,
          Adds-append w (mark name w) w' (header_lines r kind name w ++ body) later
              (Adds-append w (mark name w) (mark name w) (header_lines r kind name w) body headed
                (none-Adds (mark name w) body none_typed))
              added,
        )

  types_of-declared_lines :
      (r : MetricsRegistry F) (d : Dict String String) → types_of (declared_lines r d) ≡ names d
  unfolding declared_lines
  types_of-declared_lines r [] = refl
  types_of-declared_lines r ((name, help) ∷ rest) =
      ap (λ t. name ∷ t) (types_of-declared_lines r rest)

  declared_lines-Adds :
      (r : MetricsRegistry F) (d : Dict String String)
      → AllDistinct (names d)
      → Adds [] (declared_lines r d) (names d)
  declared_lines-Adds r d distinct =
      rw (types_of-declared_lines r d)
        (distinct, λ t i k. elim k [ ], λ t m. elim m [ inl k ↦ elim k [ ] | inr i ↦ i ])

  -- A list that Python can hold.
  abbrev pub IsShort : MetricKey × List F → Type 0
  IsShort (key, values) = length values < 2 ^ 512

  module _ (r : MetricsRegistry F) (kind : String) where
    samples-IsPlain : (store : Dict MetricKey F) → All (IsPlain r kind sample_lines) store
    unfolding sample_lines
    samples-IsPlain [] = tt
    samples-IsPlain ((key, val) ∷ rest) =
        ((sample_line key val ∷ [], refl, refl), samples-IsPlain rest)

    summaries-IsPlain :
        (ieee : IsIeee F) (b : Builtins F) (store : Dict MetricKey (List F))
        → All IsShort store
        → All (IsPlain r kind (summary_lines b)) store
    unfolding summary_lines
    summaries-IsPlain ieee b [] short = tt
    summaries-IsPlain ieee b ((key, []) ∷ rest) (s, short) =
        (([], refl, refl), summaries-IsPlain ieee b rest short)
    summaries-IsPlain ieee b ((key, x ∷ xs) ∷ rest) (s, short) =
        let (total, p50, p95, p99, e, m) = summary_lines-In ieee b key x xs s in
        (
          (summary key (suc (length xs)) total p50 p95 p99, e, refl),
          summaries-IsPlain ieee b rest short,
        )

  -- When no histogram is longer than a list can be and no name is declared twice, the document is
  -- made, and no two of its TYPE lines name the same metric.
  pub render_lines-AllDistinct :
      (ieee : IsIeee F) (b : Builtins F) (r : MetricsRegistry F)
      → All IsShort r.histograms
      → AllDistinct (names r.help_text)
      → (ls : List (Line F)) × (render_lines b r ≡ ok ls) × AllDistinct (types_of ls)
  unfolding render_lines
  render_lines-AllDistinct ieee b r short distinct =
      let declared = sort_labels r.help_text in
      let (counters, w, e, added) =
        store_lines-Adds r "counter" sample_lines r.counters (names declared)
          (samples-IsPlain r "counter" r.counters) in
      let (gauges, w', e', added') =
        store_lines-Adds r "gauge" sample_lines r.gauges w (samples-IsPlain r "gauge" r.gauges) in
      let (summaries, w'', e'', added'') =
        store_lines-Adds r "summary" (summary_lines b) r.histograms w'
          (summaries-IsPlain r "summary" ieee b r.histograms short) in
      let first = declared_lines-Adds r declared (AllDistinct-sort_labels r.help_text distinct) in
      let first' =
        Adds-append [] (names declared) w (declared_lines r declared) counters first added in
      let first'' =
        Adds-append [] w w' (declared_lines r declared ++ counters) gauges first' added' in
      (
        declared_lines r declared ++ counters ++ gauges ++ summaries,
        rw (e, e', e'') refl,
        (Adds-append [] w' w'' (declared_lines r declared ++ counters ++ gauges) summaries first''
            added'').0,
      )

  -- No name is declared twice, whatever the calls of `declare`.
  pub declare_all-AllDistinct :
      (calls : List (String × String × String)) (r : MetricsRegistry F)
      → AllDistinct (names r.help_text)
      → AllDistinct (names (declare_all calls r).help_text)
  unfolding declare_all declare
  declare_all-AllDistinct [] r distinct = distinct
  declare_all-AllDistinct ((name, help, kind) ∷ rest) r distinct =
      declare_all-AllDistinct rest (declare name help kind r)
        (AllDistinct-insert name help r.help_text distinct)
