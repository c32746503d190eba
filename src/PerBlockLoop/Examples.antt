-- ===== src/PerBlockLoop/Examples.antt =====
-- The loop of the tests with its client, store and sinks, and two of its readers as tasks.
use event_time_mcdm_agent.Common.{
  map, ◌+◌, ok, arith, zero, suc, true, ℕ, ◌^◌, pos, ◌≡◌, refl, some, none, List, [], ◌∷◌, String,
  ok, string_eq,
}
use event_time_mcdm_agent.Common.Dict.{lookup}
use event_time_mcdm_agent.Float.Decimal.{Decimal, num, decimal_float}
use event_time_mcdm_agent.Protocols.{ProtocolData}
use event_time_mcdm_agent.Mempool.{null, Net}
use event_time_mcdm_agent.Mempool.Tests.{ports as relay, live as relay_client}
use event_time_mcdm_agent.PerBlockLoop.Tests.{market, aave, euler, to_euler, ports, start, watched}
use event_time_mcdm_agent.PerBlockLoop.{Action, BlockReader, Loop, gather, handle_block, run}
use event_time_mcdm_agent.PerBlockLoop.Position.{Follows, IsRecorded}
use event_time_mcdm_agent.Observability.Registry.{canonical, declare_all, declare}
use event_time_mcdm_agent.Observability.Audit.{durable}
use event_time_mcdm_agent.Observability.Sink.{Observer}
use event_time_mcdm_agent.Observability.Balance.{counter_of}
use event_time_mcdm_agent.PerBlockLoop.Metered.{Sensors}
use event_time_mcdm_agent.PerBlockLoop.Session.{Session, run_session}
use event_time_mcdm_agent.PerBlockLoop.Heads.{run_session-eq-run}
use event_time_mcdm_agent.PerBlockLoop.Live.{live}
use event_time_mcdm_agent.PerBlockLoop.Concurrent.{
  Resumed, suspended, returned, Event, resumes, expires, settle, expire, turn, on_event,
  run_schedule, gathered, start_tasks,
}
use event_time_mcdm_agent.PerBlockLoop.Schedules.{
  AreAlike, at_await, at_return, run_schedule-AreAlike,
}
use event_time_mcdm_agent.PerBlockLoop.Sound.{AreSound, live_run-AreSound}
use event_time_mcdm_agent.PerBlockLoop.Progress.{IsResponsive, handle_block_returns}
use event_time_mcdm_agent.History.{Parquet, HistoryStore, load_from_disk}
use event_time_mcdm_agent.History.Flatten.{Row}

ports-IsResponsive : IsResponsive ports
ports-IsResponsive = record {
  gas_answers = λ w. (10 ^ 9, refl);
  price_answers = λ w. (num (pos 3), refl);
  accepts = λ current n stamp gas price snapshots. refl;
  decides = λ state w. (to_euler, refl, λ e. ("euler", refl));
  submits = λ target state w. (null, refl);
  appends = λ state action w. (tt, refl);
}

handle_block_returns_example :
    (action : Action) × ((handle_block ports 7 start).0 ≡ ok action)
    × Follows ports action start (handle_block ports 7 start).1
    × IsRecorded ports action (handle_block ports 7 start).1
handle_block_returns_example = handle_block_returns ports ports-IsResponsive 7 start

-- The loop with the client, the store and the sinks.
abbrev table : Parquet (Row Decimal) (List (Row Decimal))
table = record {
  to_parquet = λ rows. rows;
  read_parquet = λ bytes. some bytes;
  fault = λ rows step d. none;
}

abbrev whole : Loop ((Net ℕ × HistoryStore (Row Decimal) (List (Row Decimal))) × Observer Decimal)
whole = record {
  current_protocol = some "aave";
  world = (
    (
      record { world = 0; posted = [] },
      record { rows = []; disk = record { live = none; tmp = none } },
    ),
    watched.world.1,
  );
  submitted = [];
}

abbrev whole_sensors : Sensors Decimal (Net ℕ × HistoryStore (Row Decimal) (List (Row Decimal)))
whole_sensors = record {
  os = λ w. record { day = "d"; opens = true; writing = durable; stderr = true };
  elapsed = λ w. num (pos 1);
  isoformat = λ t. "t";
}

whole-AreSound : AreSound relay relay_client table 1 (some "aave") whole
unfolding canonical declare_all declare counter_of lookup load_from_disk
whole-AreSound = (refl, refl, (λ on. refl, λ off. omega arith, tt), (tt, omega arith))

live_run-AreSound_example :
    AreSound relay relay_client table 1
      (some "aave")
      (run (live relay relay_client table (pos 2) whole_sensors ports) (7 ∷ 8 ∷ 9 ∷ []) whole)
live_run-AreSound_example =
    live_run-AreSound relay relay_client ports table 1 whole_sensors (some "aave") (7 ∷ 8 ∷ 9 ∷ [])
      whole whole-AreSound

-- A coroutine that awaits its number of times, then returns.
abbrev after_awaits : ℕ → Resumed Decimal ℕ
after_awaits zero = returned market
after_awaits (suc k) = suspended k

abbrev two_readers : List (BlockReader Decimal ℕ × ℕ)
two_readers = (aave, 1) ∷ (euler, 0) ∷ []

-- "euler" is back before "aave" is.
abbrev interleaved : List Event
interleaved = resumes 0 ∷ resumes 1 ∷ resumes 0 ∷ expires 1 ∷ []

abbrev both : List (String × ProtocolData Decimal)
both = ("aave", market) ∷ ("euler", market) ∷ []

run_schedule-AreAlike_example :
    AreAlike after_awaits both
      (gather 7 (aave ∷ euler ∷ []) 0).0
      (run_schedule after_awaits interleaved (start_tasks two_readers))
unfolding gathered run_schedule on_event turn settle expire start_tasks
run_schedule-AreAlike_example =
    run_schedule-AreAlike after_awaits 7 two_readers 0 interleaved both
      (at_await refl (at_return refl), (at_return refl, tt)) refl

-- A coroutine that never waits.
abbrev at_once : ℕ → Resumed Decimal ℕ
at_once s = returned market

-- The deadlines of both pass, the first one before the first task has run.
abbrev deadlines : List Event
deadlines = expires 0 ∷ resumes 1 ∷ resumes 0 ∷ expires 1 ∷ []

abbrev session : Session ℕ
session = record {
  connect = λ w. (ok tt, w + 1);
  subscribe = λ w. (ok tt, w + 1);
  close = λ w. w + 100;
}

run_session-eq-run_example :
    let s' = run ports (7 ∷ 8 ∷ []) (record start { world = 2 }) in
    run_session ports session (map ok (7 ∷ 8 ∷ [])) start
    ≡ (ok tt, record s' { world = s'.world + 100 })
run_session-eq-run_example = run_session-eq-run ports session (7 ∷ 8 ∷ []) start 1 2 refl refl
