-- ===== src/History/Log.antt =====
-- The event loop with its store: the store is the window of a log that only grows.
use event_time_mcdm_agent.Common.{
  ℕ, suc, ◌-◌, List, ◌++◌, [], ◌∷◌, Option, length, drop, All, ◌≤◌, ◌≡◌,
}
use event_time_mcdm_agent.Float.{Float}
use event_time_mcdm_agent.History.{Parquet, File, HistoryStore}
use event_time_mcdm_agent.History.Writes.{file_of}
use event_time_mcdm_agent.History.Blocks.{IsBlockRow}
use event_time_mcdm_agent.History.Flatten.{Row}

module _ {F : Type 0} ⦃f : Float F⦄ {B : Type 0} (parquet : Parquet (Row F) B) (n : ℕ) where
  -- The last n + 1 of some rows.
  abbrev window : List (Row F) → List (Row F)
  window rows = drop (length rows - suc n) rows

  -- The file has the window of the old rows and these, flushed; without these it is the old file.
  abbrev pub IsFileOf : List (Row F) → HistoryStore (Row F) B → Option (File B) → Type 0
  IsFileOf [] before live = live ≡ before.disk.live
  IsFileOf (row ∷ rest) before live = live ≡ file_of parquet (window (before.rows ++ (row ∷ rest)))

  -- The old rows, then at most `m` of blocks, of which the store has the last n + 1; the first of
  -- them, at least `k`, are written.
  abbrev pub IsLogged : ℕ → ℕ → HistoryStore (Row F) B → HistoryStore (Row F) B → Type 0
  IsLogged k m before after =
      (written : List (Row F)) × (unwritten : List (Row F)) × (k ≤ length written)
      × (length (written ++ unwritten) ≤ m)
      × All IsBlockRow (written ++ unwritten)
      × (after.rows ≡ window (before.rows ++ (written ++ unwritten)))
      × IsFileOf written before after.disk.live
