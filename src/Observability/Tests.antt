-- ===== src/Observability/Tests.antt =====
-- The observability theorems at work on a small registry and a short trail.
use event_time_mcdm_agent.Common.{
  ℕ, List, [], ◌∷◌, ◌++◌, All, In, AllDistinct, none, some, String, true, false, ◌≡◌, refl, ok, pos,
  arith, ◌-ℤ◌,
}
use event_time_mcdm_agent.Common.Dict.{lookup, insert}
use event_time_mcdm_agent.Common.Exec.{bind}
use event_time_mcdm_agent.Float.Decimal.{
  Decimal, num, add_decimal, decimal_float, ratio_decimal, mul_decimal, truncate_decimal,
  Decimal-IsIeee,
}
use event_time_mcdm_agent.Observability.Registry.{
  MetricsRegistry, canonical, declare_all, vocabulary, declare, inc, observe, metric_key,
  sort_labels, insert_label,
}
use event_time_mcdm_agent.Observability.Audit.{
  Os, durable, failed_before, no_file, AuditTrail, lines_of, try_append, file_for_today, open_day,
  write_line, json_log, append, append_each,
}
use event_time_mcdm_agent.Observability.Sink.{DecisionRecord, Observer, Report, decided, killed}
use event_time_mcdm_agent.Observability.Rotation.{lines_for, append_each-IsUp}
use event_time_mcdm_agent.Observability.Render.{
  Builtins, Line, summary_lines, render_lines, store_lines, sample_lines, index, sort_onto,
  insert_value, quantile, declared_lines, header_lines, is_written, mark,
}
use event_time_mcdm_agent.Observability.Exposition.{render, do_get, document, labels_part, text_of}
use event_time_mcdm_agent.Observability.Quantile.{summary, summary_lines-In}
use event_time_mcdm_agent.Observability.Headers.{
  types_of, declare_all-AllDistinct, render_lines-AllDistinct,
}

abbrev fine : String → Os
fine day = record { day = day; opens = true; writing = durable; stderr = true }

abbrev broken : String → Os
broken day = record { day = day; opens = false; writing = failed_before; stderr = false }

abbrev empty_trail : {L : Type 0} → AuditTrail L
empty_trail = record { fp = no_file; current_day = none; files = []; logged = [] }

-- The second line falls on a day that cannot be opened at first.
abbrev lines : List (Os × ℕ)
lines = (fine "d1", 1) ∷ (broken "d2", 2) ∷ (fine "d2", 3) ∷ []

abbrev fine_lines : List (Os × ℕ)
fine_lines = (fine "d1", 1) ∷ (fine "d2", 2) ∷ (fine "d2", 3) ∷ []

append_each-IsUp_example :
    lines_of "d2" (append_each fine_lines empty_trail)
    ≡ lines_of "d2" empty_trail ++ lines_for "d2" fine_lines
append_each-IsUp_example =
    append_each-IsUp fine_lines "d2" empty_trail ((refl, refl), ((refl, refl), ((refl, refl), tt)))
      refl refl

-- A line that could not be written is not written later.
late : lines_of "d2" (append_each lines empty_trail) ≡ 3 ∷ []
unfolding append_each append lookup try_append bind file_for_today open_day write_line json_log
    insert
late = refl

abbrev decision_of : String → DecisionRecord Decimal
decision_of kind = record {
  block_number = 7;
  block_timestamp = "t";
  action_kind = kind;
  target_protocol = none;
  rationale = "r";
  current_protocol = none;
  position_usd = num (pos 5);
  gas_price_gwei = num (pos 3);
  gas_cost_usd = num (pos 1);
  panel_snapshot = [];
}

abbrev quiet : Observer Decimal
quiet = record { metrics = canonical; audit = empty_trail }

abbrev reports : List (Report Decimal)
reports =
    decided (fine "d1") (decision_of "hold")
    ∷ killed (broken "d1") "manual"
    ∷ decided (fine "d2") (decision_of "switch")
    ∷ []

abbrev one_text : Builtins Decimal
one_text = record { str_float = λ x. "1"; str_int = λ n. "1"; sum = λ xs. num (pos 0) }

abbrev blank : MetricsRegistry Decimal
blank = record { counters = []; gauges = []; histograms = []; help_text = []; metric_type = [] }

-- A labelled counter and a summary, as the endpoint shows them.
shown :
    do_get one_text
      (observe "s" []
        (num (pos 3))
        (inc "c" (("kind", "hold") ∷ []) (num (pos 1)) (declare "c" "text" "counter" blank)))
      "/metrics"
    ≡ ok (record {
      status = 200;
      content_type = some "text/plain; version=0.0.4; charset=utf-8";
      body =
          "# HELP c text\n# TYPE c counter\nc{kind=\"hold\"} 1\n# HELP s \n# TYPE s summary\ns_count 1\ns_sum 1\ns{quantile=\"0.5\"} 1\ns{quantile=\"0.95\"} 1\ns{quantile=\"0.99\"} 1\n";
    })
unfolding do_get render render_lines store_lines observe inc insert declare sample_lines
    summary_lines lookup index sort_onto insert_value quantile ◌-ℤ◌ truncate_decimal mul_decimal
    ratio_decimal document labels_part text_of insert_label metric_key sort_labels declared_lines
    header_lines is_written mark add_decimal
shown = refl

abbrev latency : MetricsRegistry Decimal
latency =
    observe "agent_decision_latency_seconds" [] (num (pos 2))
      (observe "other" [] (num (pos 1)) (inc "other" [] (num (pos 1)) canonical))

render_lines-AllDistinct_example :
    (ls : List (Line Decimal)) × (render_lines one_text latency ≡ ok ls) × AllDistinct (types_of ls)
unfolding observe inc canonical declare_all declare lookup insert metric_key sort_labels
render_lines-AllDistinct_example =
    render_lines-AllDistinct Decimal-IsIeee one_text latency (omega arith, (omega arith, tt))
      (declare_all-AllDistinct {F = Decimal} vocabulary blank tt)

summary_lines-In_example :
    (total p50 p95 p99 : Decimal) × (summary_lines one_text
        (metric_key "m" [])
        (num (pos 4) ∷ num (pos 2) ∷ [])
      ≡ ok (summary (metric_key "m" []) 2 total p50 p95 p99))
    × All (λ p. In p (num (pos 4) ∷ num (pos 2) ∷ [])) (p50 ∷ p95 ∷ p99 ∷ [])
summary_lines-In_example =
    summary_lines-In Decimal-IsIeee one_text (metric_key "m" []) (num (pos 4)) (num (pos 2) ∷ [])
      (omega arith)
