-- ===== src/History/Tests.antt =====
-- A store with room for two rows on a disk that can be evaluated, where parquet keeps the rows.
use event_time_mcdm_agent.Float.Decimal.{Decimal, num, decimal_float}
use event_time_mcdm_agent.PerBlockLoop.{assemble, Loop, run}
use event_time_mcdm_agent.History.Live.{stored}
use event_time_mcdm_agent.History.Typed.{AreTyped, run-AreTyped}
use event_time_mcdm_agent.PerBlockLoop.Tests.{ports, market, to_euler}
use event_time_mcdm_agent.History.Flatten.{Row, flatten}
use event_time_mcdm_agent.History.Stored.{flatten-assemble_total}
use event_time_mcdm_agent.Common.{
  ℕ, ◌≡◌, ◌≤◌, ◌-◌, pos, refl, none, some, List, [], ◌∷◌, length, drop, arith, ◌⊎◌, true, ok,
  raised, Exn, external, Option,
}
use event_time_mcdm_agent.History.{
  Parquet, File, WriteStep, to_tmp, fsync_tmp, replace_live, try_step, write_atomic, HistoryStore,
  append, append_all, load_from_disk, truncate_rows, last_rows, open_store, crash, run_steps,
  write_steps,
}
use event_time_mcdm_agent.Common.Exec.{bind}
use event_time_mcdm_agent.History.Window.{append_all-eq-drop}
use event_time_mcdm_agent.History.Crash.{IsSaved, append_crash}

abbrev plain : Parquet ℕ (List ℕ)
plain = record {
  to_parquet = λ rows. rows;
  read_parquet = λ bytes. some bytes;
  fault = λ rows step d. none;
}

abbrev filled : HistoryStore ℕ (List ℕ)
filled = record {
  rows = 7 ∷ 8 ∷ [];
  disk = record { live = some (record { bytes = 7 ∷ 8 ∷ []; flushed = true }); tmp = none };
}

abbrev five : List ℕ
five = 7 ∷ 8 ∷ 9 ∷ 10 ∷ 11 ∷ []

append_all-eq-drop_example :
    let rows = (append_all plain (pos 2) (9 ∷ 10 ∷ 11 ∷ []) filled).rows in
    (rows ≡ drop (length five - 2) five) × (length rows ≤ 2)
append_all-eq-drop_example = append_all-eq-drop plain 1 (9 ∷ 10 ∷ 11 ∷ []) filled (omega arith)

keeps_two : (append_all plain (pos 2) (9 ∷ 10 ∷ 11 ∷ []) filled).rows ≡ 10 ∷ 11 ∷ []
unfolding append_all append truncate_rows last_rows
keeps_two = refl

filled-IsSaved : IsSaved plain (pos 2) filled
unfolding load_from_disk truncate_rows
filled-IsSaved = record { flushed = refl; same = refl }

-- The crash comes after the bytes are written and before they are flushed, and loses them.
append_crash_example :
    let after = (append plain (pos 2) 9 filled).1 in
    let reopened =
      open_store plain
        (pos 2)
        (crash (λ bytes. []) (run_steps 1 after.rows write_steps filled.disk)) in
    (reopened.rows ≡ filled.rows) ⊎ (reopened.rows ≡ after.rows)
append_crash_example = append_crash plain 1 9 filled (λ bytes. []) 1 filled-IsSaved refl

-- The disk is full: the file `.tmp` cannot be flushed.
abbrev fault_at : WriteStep → Option (Exn × Option (File (List ℕ)))
fault_at to_tmp = none
fault_at fsync_tmp = some (external [], none)
fault_at replace_live = none

abbrev full : Parquet ℕ (List ℕ)
full = record plain { fault = λ rows step d. fault_at step }

full_raises : (append full (pos 2) 9 filled).0 ≡ raised (external [])
unfolding append write_atomic try_step bind truncate_rows last_rows
full_raises = refl

flatten-assemble_total_example :
    (row : Row Decimal) × (flatten
        (assemble ports none 7 1000
          (num (pos 1))
          (num (pos 3))
          (("aave", market) ∷ ("euler", market) ∷ []))
        to_euler
      ≡ ok row)
flatten-assemble_total_example =
    flatten-assemble_total ports none 7 1000 (num (pos 1)) (num (pos 3))
      (("aave", market) ∷ ("euler", market) ∷ []) to_euler

abbrev table : Parquet (Row Decimal) (List (Row Decimal))
table = record {
  to_parquet = λ rows. rows;
  read_parquet = λ bytes. some bytes;
  fault = λ rows step d. none;
}

abbrev empty_store : HistoryStore (Row Decimal) (List (Row Decimal))
empty_store = record { rows = []; disk = record { live = none; tmp = none } }

abbrev opened : Loop (ℕ × HistoryStore (Row Decimal) (List (Row Decimal)))
opened = record { current_protocol = none; world = (0, empty_store); submitted = [] }

run-AreTyped_example :
    AreTyped table (pos 2) (run (stored table (pos 2) ports) (7 ∷ 8 ∷ 9 ∷ []) opened).world.1
run-AreTyped_example = run-AreTyped table (pos 2) ports (7 ∷ 8 ∷ 9 ∷ []) opened tt
