-- ===== src/Observability/Registry.antt =====
-- `MetricsRegistry`: counters, gauges and histograms under a name and sorted labels.
use event_time_mcdm_agent.Common.{
  List, [], ◌∷◌, ◌++◌, Option, none, some, String, if◌then◌else◌, string_eq, pair_eq, list_eq,
}
use Prim.Native.String.{compare}
use text.Mathlib.Text.{is_lt}
use event_time_mcdm_agent.Common.Dict.{Dict, lookup, insert}
use event_time_mcdm_agent.Float.{Float, zero_f}

-- `dict[str, str] | None`; no labels are the empty dict.
abbrev pub Labels : Type 0
Labels = Dict String String

-- (name,) + tuple(sorted(labels.items()))
abbrev pub MetricKey : Type 0
MetricKey = String × List (String × String)

-- The labels of a dict have different names, so their order is that of the names.
unfoldable pub insert_label : String × String → List (String × String) → List (String × String)
insert_label l [] = l ∷ []
insert_label (k, v) ((j, w) ∷ rest) =
    let later = insert_label (k, v) rest in
    if is_lt (compare k j) then (k, v) ∷ (j, w) ∷ rest else (j, w) ∷ later

unfoldable pub sort_labels : Labels → List (String × String)
sort_labels [] = []
sort_labels (l ∷ ls) = insert_label l (sort_labels ls)

-- `MetricsRegistry._key`
unfoldable pub metric_key : String → Labels → MetricKey
metric_key name labels = (name, sort_labels labels)

pub record MetricsRegistry (F : Type 0) : Type 0 where
  pub counters : Dict MetricKey F
  pub gauges : Dict MetricKey F
  pub histograms : Dict MetricKey (List F)
  pub help_text : Dict String String
  pub metric_type : Dict String String

-- .get(key, default)
abbrev pub or_default {ℓ} : {A : Type ℓ} → A → Option A → A
or_default default none = default
or_default default (some x) = x

abbrev pub vocabulary : List (String × String × String)
vocabulary =
    ("agent_blocks_processed_total", "Blocks consumed by the per-block loop", "counter")
    ∷ ("agent_decisions_total", "Decisions emitted by the policy", "counter")
    ∷ ("agent_rebalances_total", "Rebalance txs successfully submitted", "counter")
    ∷ ("agent_kill_switch_events_total", "Kill-switch triggers (manual or auto)", "counter")
    ∷ ("agent_position_usd", "Current position USD value", "gauge")
    ∷ ("agent_block_lag_blocks", "Number of blocks behind chain head", "gauge")
    ∷ ("agent_gas_price_gwei", "Last-seen gas price (gwei)", "gauge")
    ∷ ("agent_uptime_seconds", "Seconds since agent process start", "gauge")
    ∷ ("agent_decision_latency_seconds", "Per-block decide() wall-clock seconds", "summary")
    ∷ []

module _ {F : Type 0} where
  unfoldable pub declare : String → String → String → MetricsRegistry F → MetricsRegistry F
  declare name help kind r = record r {
    help_text = insert name help r.help_text;
    metric_type = insert name kind r.metric_type;
  }

  unfoldable pub set : String → Labels → F → MetricsRegistry F → MetricsRegistry F
  set name labels value r = record r { gauges = insert (metric_key name labels) value r.gauges }

  unfoldable pub observe : String → Labels → F → MetricsRegistry F → MetricsRegistry F
  observe name labels value r =
      let key = metric_key name labels in
      let seen = or_default [] (lookup key r.histograms) in
      record r { histograms = insert key (seen ++ (value ∷ [])) r.histograms }

  module _ ⦃f : Float F⦄ where
    unfoldable pub inc : String → Labels → F → MetricsRegistry F → MetricsRegistry F
    inc name labels value r =
        let key = metric_key name labels in
        record r {
          counters =
              insert key (f.add (or_default zero_f (lookup key r.counters)) value) r.counters;
        }

  unfoldable pub declare_all :
      List (String × String × String) → MetricsRegistry F → MetricsRegistry F
  declare_all [] r = r
  declare_all ((name, help, kind) ∷ rest) r = declare_all rest (declare name help kind r)

  -- `METRICS`, after the declarations of the module.
  unfoldable pub canonical : MetricsRegistry F
  canonical =
      declare_all vocabulary
        (record { counters = []; gauges = []; histograms = []; help_text = []; metric_type = [] })
