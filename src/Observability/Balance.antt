-- ===== src/Observability/Balance.antt =====
-- agent/observability.py: two counters that the reports keep in step.
use event_time_mcdm_agent.Common.{
  List, [], ◌∷◌, String, Bool, true, false, if◌then◌else◌, ◌==◌, string_eq, pair_eq, list_eq, ◌≡◌,
  refl, arith, same→eq, same_refl, ◌∙◌, sym,
}
use event_time_mcdm_agent.Common.Dict.{lookup, lookup-insert}
use event_time_mcdm_agent.Float.{Float, zero_f, one_f}
use event_time_mcdm_agent.Observability.Registry.{
  Labels, metric_key, sort_labels, insert_label, MetricsRegistry, or_default, inc, set,
}
use event_time_mcdm_agent.Observability.Sink.{
  DecisionRecord, Report, decided, killed, Observer, count_decision, record_decision,
  record_kill_switch, record_each,
}

abbrev of_kind : String → Labels
of_kind kind = ("kind", kind) ∷ []

same_kind_key :
    (a b : String)
    → (metric_key "agent_decisions_total" (of_kind a)
        == metric_key "agent_decisions_total" (of_kind b))
      ≡ (a == b)
unfolding metric_key sort_labels insert_label
same_kind_key a b = ground arith

other_key :
    (labels : Labels)
    → (metric_key "agent_decisions_total" labels == metric_key "agent_rebalances_total" []) ≡ false
unfolding metric_key
other_key labels = refl

other_key' :
    (labels : Labels)
    → (metric_key "agent_rebalances_total" [] == metric_key "agent_decisions_total" labels) ≡ false
unfolding metric_key
other_key' labels = refl

module _ {F : Type 0} ⦃f : Float F⦄ where
  -- The value of a counter that the endpoint shows; a counter that was never raised is 0.0.
  unfoldable pub counter_of : String → Labels → MetricsRegistry F → F
  counter_of name labels r = or_default zero_f (lookup (metric_key name labels) r.counters)

  pub counter_of-inc :
      (name name' : String) (labels labels' : Labels) (v : F) (r : MetricsRegistry F)
      → counter_of name' labels' (inc name labels v r) ≡ (
          if metric_key name labels == metric_key name' labels'
          then f.add (counter_of name labels r) v
          else counter_of name' labels' r)
  unfolding counter_of inc
  counter_of-inc name name' labels labels' v r = ground (
    arith,
    lookup-insert (metric_key name labels) (metric_key name' labels')
        (f.add (or_default zero_f (lookup (metric_key name labels) r.counters)) v) r.counters,
  )

  -- How often the policy has switched, as the two counters tell it.
  abbrev pub switches : MetricsRegistry F → F
  switches r = counter_of "agent_decisions_total" (("kind", "switch") ∷ []) r

  abbrev pub rebalances : MetricsRegistry F → F
  rebalances r = counter_of "agent_rebalances_total" [] r

  -- What the gauges' updates of a decision leave.
  abbrev priced : DecisionRecord F → MetricsRegistry F → MetricsRegistry F
  priced d r = set "agent_gas_price_gwei" [] d.gas_price_gwei (
      set "agent_position_usd" [] d.position_usd
        (inc "agent_decisions_total" (of_kind d.action_kind) one_f r))

  counter_of-priced :
      (d : DecisionRecord F) (r : MetricsRegistry F) (name : String) (labels : Labels)
      → counter_of name labels (priced d r)
        ≡ counter_of name labels (inc "agent_decisions_total" (of_kind d.action_kind) one_f r)
  unfolding set counter_of
  counter_of-priced d r name labels = refl

  switches-priced :
      (d : DecisionRecord F) (r : MetricsRegistry F)
      → switches (priced d r)
        ≡ (if d.action_kind == "switch" then f.add (switches r) one_f else switches r)
  switches-priced d r =
      counter_of-priced d r "agent_decisions_total" (of_kind "switch")
      ∙ counter_of-inc "agent_decisions_total" "agent_decisions_total" (of_kind d.action_kind)
          (of_kind "switch") one_f r
      ∙ rw (same_kind_key d.action_kind "switch")
          (by_kind (d.action_kind) (d.action_kind == "switch") (same→eq d.action_kind "switch"))
    where
      by_kind :
          (kind : String) (b : Bool)
          → (b ≡ true → kind ≡ "switch")
          → (if b
              then f.add (counter_of "agent_decisions_total" (of_kind kind) r) one_f
              else switches r)
            ≡ (if b then f.add (switches r) one_f else switches r)
      by_kind kind false h = refl
      by_kind kind true h = rw (h refl)

  switches-count_decision :
      (d : DecisionRecord F) (r : MetricsRegistry F)
      → switches (count_decision d r)
        ≡ (if d.action_kind == "switch" then f.add (switches r) one_f else switches r)
  unfolding count_decision
  switches-count_decision d r = paid (d.action_kind == "switch") ∙ switches-priced d r
    where
      paid :
          (b : Bool)
          → switches (if b then inc "agent_rebalances_total" [] one_f (priced d r) else priced d r)
            ≡ switches (priced d r)
      paid false = refl
      paid true = rw (
        counter_of-inc "agent_rebalances_total" "agent_decisions_total" [] (of_kind "switch") one_f
            (priced d r),
        other_key' (of_kind "switch"),
      )

  rebalances-priced :
      (d : DecisionRecord F) (r : MetricsRegistry F) → rebalances (priced d r) ≡ rebalances r
  rebalances-priced d r = rw (
    counter_of-priced d r "agent_rebalances_total" [],
    counter_of-inc "agent_decisions_total" "agent_rebalances_total" (of_kind d.action_kind) [] one_f
        r,
    other_key (of_kind d.action_kind),
  )

  pub rebalances-count_decision :
      (d : DecisionRecord F) (r : MetricsRegistry F)
      → rebalances (count_decision d r)
        ≡ (if d.action_kind == "switch" then f.add (rebalances r) one_f else rebalances r)
  unfolding count_decision
  rebalances-count_decision d r = paid (d.action_kind == "switch")
    where
      paid :
          (b : Bool)
          → rebalances
              (if b then inc "agent_rebalances_total" [] one_f (priced d r) else priced d r)
            ≡ (if b then f.add (rebalances r) one_f else rebalances r)
      paid false = rebalances-priced d r
      paid true = rw (
        counter_of-inc "agent_rebalances_total" "agent_rebalances_total" [] [] one_f (priced d r),
        same_refl (metric_key "agent_rebalances_total" []),
        rebalances-priced d r,
      )

  counter_of-killed :
      (reason name : String) (labels : Labels) (r : MetricsRegistry F)
      → (metric_key "agent_kill_switch_events_total" (("reason", reason) ∷ [])
          == metric_key name labels)
        ≡ false
      → counter_of name labels
          (inc "agent_kill_switch_events_total" (("reason", reason) ∷ []) one_f r)
        ≡ counter_of name labels r
  counter_of-killed reason name labels r h = rw (
    counter_of-inc "agent_kill_switch_events_total" name (("reason", reason) ∷ []) labels one_f r,
    h,
  )

  -- When the counter of the decisions of kind "switch" and the counter of the rebalances agree, they
  -- agree after any sequence of decisions and kill switches, whatever the operating system does.
  pub record_each-switches :
      (reports : List (Report F)) (o : Observer F)
      → switches o.metrics ≡ rebalances o.metrics
      → switches (record_each reports o).metrics ≡ rebalances (record_each reports o).metrics
  unfolding record_each record_decision record_kill_switch metric_key
  record_each-switches [] o h = h
  record_each-switches (decided os d ∷ rest) o h =
      record_each-switches rest (record_decision os d o)
        (rw (switches-count_decision d o.metrics, rebalances-count_decision d o.metrics, h))
  record_each-switches (killed os reason ∷ rest) o h =
      record_each-switches rest (record_kill_switch os reason o) (
        counter_of-killed reason "agent_decisions_total" (of_kind "switch") o.metrics refl
        ∙ h
        ∙ sym (counter_of-killed reason "agent_rebalances_total" [] o.metrics refl))
