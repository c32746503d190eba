-- ===== src/History/Writes.antt =====
-- What a write that can raise does to the file: it replaces it by flushed bytes, or leaves it.
use event_time_mcdm_agent.Common.{
  ℤ, arith, List, Option, some, true, Exn, Result, ok, raised, ◌≡◌, ◌⊎◌,
}
use event_time_mcdm_agent.Common.Exec.{bind}
use event_time_mcdm_agent.History.{
  Parquet, File, Disk, HistoryStore, write_step, try_step, write_atomic, append,
}

module _ {R B : Type 0} (parquet : Parquet R B) where
  -- The file with these rows, flushed.
  abbrev pub file_of : List R → Option (File B)
  file_of rows = some (record { bytes = parquet.to_parquet rows; flushed = true })

  -- The write returned and the file has the rows, or it raised and the file is what it was.
  abbrev pub HasWritten : List R → Option (File B) → Result (Unit {0}) → Option (File B) → Type 0
  HasWritten rows before r live =
      ((r ≡ ok tt) × (live ≡ file_of rows)) ⊎ ((e : Exn) × (r ≡ raised e) × (live ≡ before))

  pub write_atomic-HasWritten :
      (rows : List R) (d : Disk B)
      → let after = write_atomic parquet rows d in HasWritten rows d.live after.0 after.1.live
  unfolding write_atomic try_step write_step bind
  write_atomic-HasWritten rows d = ground arith

  pub append-HasWritten :
      (max_rows : ℤ) (row : R) (s : HistoryStore R B)
      → let after = append parquet max_rows row s in
        HasWritten after.1.rows s.disk.live after.0 after.1.disk.live
  unfolding append
  append-HasWritten max_rows row s = write_atomic-HasWritten _ s.disk
