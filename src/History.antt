-- ===== src/History.antt =====
-- agent/state/history.py: the rolling store of rows and its file. A row is any type here, and
-- Flatten has the rows of the program; parquet is a parameter. The disk tells bytes that are
-- flushed from bytes that a crash can lose.
pub mod Window
pub mod Crash
pub mod Writes
pub mod Restart
pub mod Flatten
pub mod Columns
pub mod Schema
pub mod Typed
pub mod Blocks
pub mod Log
pub mod Stored
pub mod Live
pub mod Safe
mod Tests
use event_time_mcdm_agent.Common.{
  ℕ, zero, suc, ◌-◌, ℤ, pos, negsuc, ltb_ℤ, Option, none, some, List, [], ◌∷◌, ◌++◌, length, drop,
  Bool, true, false, if◌then◌else◌, Exn, Result, ok, raised,
}
use event_time_mcdm_agent.Common.Exec.{Exec, ◌>>◌}

pub record File (B : Type 0) : Type 0 where
  pub bytes : B
  pub flushed : Bool

-- The file at `path` and the one at `path` with the suffix `.tmp`.
pub record Disk (B : Type 0) : Type 0 where
  pub live : Option (File B)
  pub tmp : Option (File B)

pub record HistoryStore (R B : Type 0) : Type 0 where
  pub rows : List R
  pub disk : Disk B

-- The three effects of `_write_atomic`, in their order.
pub data WriteStep : Type 0 where
  to_tmp fsync_tmp replace_live : WriteStep

-- `DataFrame.to_parquet`, and `read_parquet` followed by `to_dict`, where `none` is any exception;
-- and what can go wrong as these rows are written. On this disk a step may raise, and then leaves the
-- file `.tmp` in any state: `os.replace` is atomic, and the steps before it write to no other file.
pub record Parquet (R B : Type 0) : Type 0 where
  pub to_parquet : List R → B
  pub read_parquet : B → Option (List R)
  pub fault : List R → WriteStep → Disk B → Option (Exn × Option (File B))

abbrev flush : {B : Type 0} → Option (File B) → Option (File B)
flush none = none
flush (some file) = some (record file { flushed = true })

abbrev pub write_steps : List WriteStep
write_steps = to_tmp ∷ fsync_tmp ∷ replace_live ∷ []

module _ {B : Type 0} where
  unfoldable pub write_step : B → WriteStep → Disk B → Disk B
  write_step bytes to_tmp d = record d { tmp = some (record { bytes = bytes; flushed = false }) }
  write_step bytes fsync_tmp d = record d { tmp = flush d.tmp }
  write_step bytes replace_live d = record { live = d.tmp; tmp = none }

  -- The first steps of a list, none of which raises; the rest is not reached.
  unfoldable pub run_steps : ℕ → B → List WriteStep → Disk B → Disk B
  run_steps zero bytes steps d = d
  run_steps (suc n) bytes [] d = d
  run_steps (suc n) bytes (s ∷ rest) d = run_steps n bytes rest (write_step bytes s d)

  -- A crash: what was not flushed may have become any bytes.
  unfoldable pub crash : (B → B) → Disk B → Disk B
  crash garble d = record { live = damage d.live; tmp = damage d.tmp }
    where
      damage : Option (File B) → Option (File B)
      damage none = none
      damage (some file) =
          if file.flushed then some file else some (record file { bytes = garble file.bytes })

-- What becomes of a step that raises, or does not.
abbrev pub step_outcome :
    {B : Type 0} → Option (Exn × Option (File B)) → Disk B → Disk B → Result (Unit {0}) × Disk B
step_outcome none done d = (ok tt, done)
step_outcome (some (e, left)) done d = (raised e, record d { tmp = left })

module _ {R B : Type 0} (parquet : Parquet R B) where
  unfoldable pub try_step : List R → WriteStep → Exec (Disk B) (Unit {0})
  try_step rows step d =
      step_outcome (parquet.fault rows step d) (write_step (parquet.to_parquet rows) step d) d

  -- `_write_atomic`: a step that raises is the last one.
  unfoldable pub write_atomic : List R → Exec (Disk B) (Unit {0})
  write_atomic rows = do try_step rows to_tmp; try_step rows fsync_tmp; try_step rows replace_live

module _ {R B : Type 0} where
  -- `HistoryStore.snapshot_df`, whose frame is a copy.
  unfoldable pub snapshot_df : HistoryStore R B → List R
  snapshot_df s = s.rows

module _ {R : Type 0} where
  -- rows[-max_rows:]
  unfoldable pub last_rows : ℤ → List R → List R
  last_rows (pos zero) rows = rows
  last_rows (pos (suc n)) rows = drop (length rows - suc n) rows
  last_rows (negsuc n) rows = drop (suc n) rows

  -- `if len(rows) > max_rows: rows = rows[-max_rows:]`
  unfoldable pub truncate_rows : ℤ → List R → List R
  truncate_rows max_rows rows =
      if ltb_ℤ max_rows (pos (length rows)) then last_rows max_rows rows else rows

  module _ {B : Type 0} (parquet : Parquet R B) (max_rows : ℤ) where
    abbrev load_bytes : Option (List R) → List R
    load_bytes none = []
    load_bytes (some rows) = truncate_rows max_rows rows

    -- `HistoryStore.load_from_disk`
    unfoldable pub load_from_disk : Disk B → List R
    load_from_disk d = load_file d.live
      where
        load_file : Option (File B) → List R
        load_file none = []
        load_file (some file) = load_bytes (parquet.read_parquet file.bytes)

    -- `HistoryStore.__init__` on what the disk holds.
    unfoldable pub open_store : Disk B → HistoryStore R B
    open_store d = record { rows = load_from_disk d; disk = d }

    -- `HistoryStore.append` of a flattened row: a write that raises leaves the row in memory.
    unfoldable pub append : R → Exec (HistoryStore R B) (Unit {0})
    append row s =
        let rows = truncate_rows max_rows (s.rows ++ (row ∷ [])) in
        let (result, disk) = write_atomic parquet rows s.disk in
        (result, record { rows = rows; disk = disk })

    -- One append after another, as the lock orders them, whether or not they raise.
    unfoldable pub append_all : List R → HistoryStore R B → HistoryStore R B
    append_all [] s = s
    append_all (row ∷ rest) s = append_all rest (append row s).1
