-- ===== src/Observability/Sink.antt =====
-- `record_decision` and `record_kill_switch`, and what they do to the counters.
use event_time_mcdm_agent.Common.{ℕ, List, [], ◌∷◌, Option, String, if◌then◌else◌, ◌==◌, string_eq}
use event_time_mcdm_agent.Common.Dict.{Dict}
use event_time_mcdm_agent.Float.{Float, one_f}
use event_time_mcdm_agent.Observability.Registry.{MetricsRegistry, inc, set}
use event_time_mcdm_agent.Observability.Audit.{Os, AuditTrail, json_log, append}

-- The arguments of `record_decision`.
pub record DecisionRecord (F : Type 0) : Type 0 where
  pub block_number : ℕ
  pub block_timestamp : String
  pub action_kind : String
  pub target_protocol : Option String
  pub rationale : String
  pub current_protocol : Option String
  pub position_usd : F
  pub gas_price_gwei : F
  pub gas_cost_usd : F
  pub panel_snapshot : Dict String F

-- A line of the trail; the further details of a kill switch are left out.
pub data AuditLine (F : Type 0) : Type 0 where
  decision : DecisionRecord F → AuditLine F
  kill_switch : String → AuditLine F

-- The two module-level objects.
pub record Observer (F : Type 0) : Type 0 where
  pub metrics : MetricsRegistry F
  pub audit : AuditTrail (AuditLine F)

pub data Report (F : Type 0) : Type 0 where
  decided : Os → DecisionRecord F → Report F
  killed : Os → String → Report F

module _ {F : Type 0} ⦃f : Float F⦄ where
  -- What `record_decision` does to the metrics.
  unfoldable pub count_decision : DecisionRecord F → MetricsRegistry F → MetricsRegistry F
  count_decision d r =
      let counted = inc "agent_decisions_total" (("kind", d.action_kind) ∷ []) one_f r in
      let positioned = set "agent_position_usd" [] d.position_usd counted in
      let priced = set "agent_gas_price_gwei" [] d.gas_price_gwei positioned in
      if d.action_kind == "switch" then inc "agent_rebalances_total" [] one_f priced else priced

  -- `record_decision`
  unfoldable pub record_decision : Os → DecisionRecord F → Observer F → Observer F
  record_decision os d o = record {
    metrics = count_decision d o.metrics;
    audit = append os (decision d) (json_log os.stderr "decision" o.audit);
  }

  -- `record_kill_switch`
  unfoldable pub record_kill_switch : Os → String → Observer F → Observer F
  record_kill_switch os reason o = record {
    metrics = inc "agent_kill_switch_events_total" (("reason", reason) ∷ []) one_f o.metrics;
    audit = append os (kill_switch reason) (json_log os.stderr "kill_switch" o.audit);
  }

  -- What the agent reports, in its order.
  unfoldable pub record_each : List (Report F) → Observer F → Observer F
  record_each [] o = o
  record_each (decided os d ∷ rest) o = record_each rest (record_decision os d o)
  record_each (killed os reason ∷ rest) o = record_each rest (record_kill_switch os reason o)
