-- ===== src/History/Crash.antt =====
-- A crash between two steps of a write loses at most the row that was being written.
use event_time_mcdm_agent.Common.{
  ℕ, zero, suc, ℤ, pos, ◌≡◌, refl, ◌∙◌, Option, none, some, List, [], ◌∷◌, ◌++◌, true, ◌⊎◌, inl,
  inr,
}
use event_time_mcdm_agent.History.{
  Parquet, File, Disk, HistoryStore, truncate_rows, append, load_from_disk, run_steps, write_steps,
  write_step, crash, open_store,
}
use event_time_mcdm_agent.History.Window.{length-truncate_rows, truncate_rows_short}

-- There is no file, or all of its bytes are flushed.
abbrev pub IsFlushed : {B : Type 0} → Option (File B) → Type 0
IsFlushed none = Unit
IsFlushed (some file) = file.flushed ≡ true

module _ {R B : Type 0} (parquet : Parquet R B) (max_rows : ℤ) where
  -- The disk has what the store has, safe from a crash.
  pub record IsSaved (s : HistoryStore R B) : Type 0 where
    pub flushed : IsFlushed s.disk.live
    pub same : load_from_disk parquet max_rows s.disk ≡ s.rows

  module _ (garble : B → B) (bytes : B) where
    pub load-crash :
        (d : Disk B)
        → IsFlushed d.live
        → load_from_disk parquet max_rows (crash garble d) ≡ load_from_disk parquet max_rows d
    unfolding load_from_disk crash
    load-crash d h = survives d.live d.tmp h
      where
        survives :
            (live tmp : Option (File B))
            → IsFlushed live
            → let before : Disk B = record { live = live; tmp = tmp } in
              load_from_disk parquet max_rows (crash garble before)
              ≡ load_from_disk parquet max_rows before
        survives none tmp h = refl
        survives (some file) tmp h = rw h refl

    -- At any point of a write, what a restart finds is what was there before it or what it writes.
    crash_during_write :
        (k : ℕ) (d : Disk B)
        → IsFlushed d.live
        → let found =
            load_from_disk parquet max_rows (crash garble (run_steps k bytes write_steps d)) in
          (found ≡ load_from_disk parquet max_rows d)
          ⊎ (found ≡ load_from_disk parquet max_rows (run_steps 3 bytes write_steps d))
    unfolding run_steps write_step load_from_disk
    crash_during_write zero d h = inl (load-crash d h)
    crash_during_write (suc zero) d h = inl (load-crash _ h)
    crash_during_write (suc (suc zero)) d h = inl (load-crash _ h)
    crash_during_write (suc (suc (suc zero))) d h = inr (load-crash _ refl)
    crash_during_write (suc (suc (suc (suc k)))) d h = inr (load-crash _ refl)

module _ {R B : Type 0} (parquet : Parquet R B) (n : ℕ) where
  -- What a whole write leaves is found again by a restart.
  load-run_steps :
      (rows : List R) (d : Disk B)
      → parquet.read_parquet (parquet.to_parquet rows) ≡ some rows
      → load_from_disk parquet (pos (suc n)) (run_steps 3 (parquet.to_parquet rows) write_steps d)
        ≡ truncate_rows (pos (suc n)) rows
  unfolding load_from_disk run_steps write_step
  load-run_steps rows d h = rw h refl

  -- A saved store that crashes after any number of the steps of an append, whatever then becomes of
  -- the bytes that were not flushed, opens again with its rows from before the append or with those
  -- from after it, if parquet reads back the rows that the append writes.
  pub append_crash :
      (row : R) (s : HistoryStore R B) (garble : B → B) (k : ℕ)
      → IsSaved parquet (pos (suc n)) s
      → let after = (append parquet (pos (suc n)) row s).1 in
        let bytes = parquet.to_parquet after.rows in
        let reopened =
          open_store parquet (pos (suc n)) (crash garble (run_steps k bytes write_steps s.disk)) in
        parquet.read_parquet bytes ≡ some after.rows
        → (reopened.rows ≡ s.rows) ⊎ (reopened.rows ≡ after.rows)
  unfolding open_store append
  append_crash row s garble k saved h =
      let after = (append parquet (pos (suc n)) row s).1 in
      elim (crash_during_write parquet (pos (suc n)) garble (parquet.to_parquet after.rows) k s.disk
        saved.flushed) [
          | inl old ↦ inl (old ∙ saved.same)
          | inr new ↦ inr (
              new
              ∙ load-run_steps after.rows s.disk h
              ∙ truncate_rows_short n after.rows (length-truncate_rows n (s.rows ++ (row ∷ []))))
        ]
