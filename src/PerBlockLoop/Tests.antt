-- ===== src/PerBlockLoop/Tests.antt =====
-- A loop that can be evaluated: the policy switches to "euler" and the relay takes the transaction,
-- while the reader of "spark" times out.
use event_time_mcdm_agent.Common.{
  true, false, ℕ, ◌+◌, ◌^◌, pos, ◌≡◌, ◌≢◌, refl, some, none, length, [], ◌∷◌, ◌++◌, String, ok,
  raised, external, string_eq,
}
use event_time_mcdm_agent.Common.Dict.{lookup}
use event_time_mcdm_agent.Common.Exec.{bind}
use event_time_mcdm_agent.Float.{zero_f}
use event_time_mcdm_agent.Float.Decimal.{Decimal, num, not_a_number, decimal_float}
use event_time_mcdm_agent.Protocols.{ProtocolData}
use event_time_mcdm_agent.Mempool.{null}
use event_time_mcdm_agent.PerBlockLoop.{
  Action, BlockReader, Ports, Loop, panel, gather, read_one, prepare, fetch_block_timestamp,
  assemble, switch, submit_private, move, execute, persist, complete, handle_block, run,
}
use event_time_mcdm_agent.PerBlockLoop.Position.{
  IsTracking, run-IsTracking, Follows, IsRecorded, handle_block-Follows,
}
use event_time_mcdm_agent.Observability.Registry.{canonical, declare_all, declare}
use event_time_mcdm_agent.Observability.Audit.{durable, no_file}
use event_time_mcdm_agent.Observability.Sink.{Observer}
use event_time_mcdm_agent.Observability.Balance.{rebalances, counter_of}
use event_time_mcdm_agent.PerBlockLoop.Metered.{Sensors, metered}
use event_time_mcdm_agent.PerBlockLoop.Counted.{ones, run-IsCounted}
use event_time_mcdm_agent.PerBlockLoop.Stale.{stale_between, gather_isolates}

abbrev pub market : ProtocolData Decimal
market = record {
  name = "market";
  adapter_index = pos 0;
  apy = num (pos 4);
  utilization = num (pos 0);
  tvl = num (pos 9);
  raw_rate_1e18 = pos 0;
}

-- The world counts the calls.
abbrev pub aave : BlockReader Decimal ℕ
aave = record { label = "aave"; adapter_index = pos 0; read_at_block = λ n w. (ok market, w + 1) }

abbrev pub euler : BlockReader Decimal ℕ
euler = record { label = "euler"; adapter_index = pos 5; read_at_block = λ n w. (ok market, w + 1) }

abbrev pub spark : BlockReader Decimal ℕ
spark = record {
  label = "spark";
  adapter_index = pos 2;
  read_at_block = λ n w. (raised (external []), w + 1);
}

abbrev pub to_euler : Action
to_euler = record { kind = "switch"; target_protocol = some "euler"; rationale = "rate" }

abbrev pub ports : Ports Decimal ℕ
ports = record {
  readers = aave ∷ spark ∷ euler ∷ [];
  gas_price = λ w. (ok (10 ^ 9), w);
  get_block = λ n w. (ok 1000, w);
  utcnow = λ w. (0, w);
  eth_price_usd_provider = λ w. (ok (num (pos 3)), w);
  new_state = λ state. ok tt;
  decide = λ state w. (ok to_euler, w);
  count_block = λ w. w;
  submit_private_tx = λ target state w. (ok null, w + 1);
  record_decision = λ state action current w. w;
  append = λ state action w. (ok tt, w);
  position_usd = num (pos 100);
  gas_used_estimate = 200000;
}

abbrev pub start : Loop ℕ
start = record { current_protocol = some "aave"; world = 0; submitted = [] }

run-IsTracking_example : IsTracking (some "aave") (run ports (7 ∷ 8 ∷ []) start)
run-IsTracking_example = run-IsTracking ports (some "aave") (7 ∷ 8 ∷ []) start refl

returns : (handle_block ports 7 start).0 ≡ ok to_euler
unfolding handle_block prepare fetch_block_timestamp gather read_one assemble complete execute
    switch submit_private move persist bind
returns = refl

handle_block-Follows_example :
    let s = (handle_block ports 7 start).1 in
    Follows ports to_euler start s × IsRecorded ports to_euler s
handle_block-Follows_example = handle_block-Follows ports 7 start to_euler returns

abbrev euler_label : String
euler_label = "euler"

euler-ne-spark : euler_label ≢ "spark"
euler-ne-spark e = absurd_test ((string_eq.same_iff euler_label "spark").1 e)
  where
    absurd_test : false ≡ true → ⊥
    absurd_test h = cc

gather_isolates_example :
    let all = (gather 7 ((aave ∷ []) ++ (spark ∷ euler ∷ [])) 0).0 in
    (lookup "spark" (panel (λ (d : ProtocolData Decimal). d.apy) all []) ≡ some not_a_number)
    × (lookup "spark" (panel (λ (d : ProtocolData Decimal). d.utilization) all [])
        ≡ some not_a_number)
    × (lookup "spark" (panel (λ (d : ProtocolData Decimal). d.tvl) all []) ≡ some zero_f)
    × (all ≡ stale_between 7 (aave ∷ []) spark (euler ∷ []) 0 2)
unfolding gather read_one
gather_isolates_example =
    gather_isolates 7 (aave ∷ []) spark (euler ∷ []) 0 (external []) 2 (euler-ne-spark, tt) refl

abbrev sensors : Sensors Decimal ℕ
sensors = record {
  os = λ w. record { day = "d"; opens = true; writing = durable; stderr = true };
  elapsed = λ w. num (pos 1);
  isoformat = λ t. "t";
}

abbrev pub watched : Loop (ℕ × Observer Decimal)
watched = record {
  current_protocol = some "aave";
  world = (
    0,
    record {
      metrics = canonical;
      audit = record { fp = no_file; current_day = none; files = []; logged = [] };
    },
  );
  submitted = [];
}

run-IsCounted_example :
    rebalances (run (metered sensors ports) (7 ∷ 8 ∷ []) watched).world.1.metrics
    ≡ ones (length (run (metered sensors ports) (7 ∷ 8 ∷ []) watched).submitted)
unfolding canonical declare_all declare counter_of lookup
run-IsCounted_example = run-IsCounted sensors ports (7 ∷ 8 ∷ []) watched refl
