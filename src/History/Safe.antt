-- ===== src/History/Safe.antt =====
-- The event loop with its store: what is on the disk after any blocks.
use event_time_mcdm_agent.Common.{
  ℕ, suc, ◌≤◌, pos, List, [], ◌∷◌, ◌++◌, length, Result, ok, raised, refl, sym, subst, inl, inr,
}
use event_time_mcdm_agent.Float.{Float}
use event_time_mcdm_agent.PerBlockLoop.{BlockState, Action, Ports, Loop, run}
use event_time_mcdm_agent.PerBlockLoop.Keeps.{IsKeptBy, run-kept}
use event_time_mcdm_agent.PerBlockLoop.Lifted.{OfStore, OfStore-IsKeptBy}
use event_time_mcdm_agent.History.{Parquet, HistoryStore, append}
use event_time_mcdm_agent.History.Window.{length-truncate_rows}
use event_time_mcdm_agent.History.Crash.{IsFlushed}
use event_time_mcdm_agent.History.Writes.{append-HasWritten}
use event_time_mcdm_agent.History.Flatten.{Row, flatten}
use event_time_mcdm_agent.History.Live.{append_row, append_action, stored}

module _ {F : Type 0} {B : Type 0} (parquet : Parquet (Row F) B) (n : ℕ) where
  -- The file is flushed, and the store within its window.
  abbrev pub IsSafe : HistoryStore (Row F) B → Type 0
  IsSafe s = IsFlushed s.disk.live × (length s.rows ≤ suc n)

module _ {F : Type 0} ⦃f : Float F⦄ {B : Type 0} (parquet : Parquet (Row F) B) (n : ℕ) where
  append-IsSafe :
      (row : Row F) (s : HistoryStore (Row F) B)
      → IsSafe parquet n s
      → IsSafe parquet n (append parquet (pos (suc n)) row s).1
  unfolding append
  append-IsSafe row s (flushed, short) = (
    elim (append-HasWritten parquet (pos (suc n)) row s) [
      | inl (returned, same) ↦ subst IsFlushed (sym same) refl
      | inr (e, raises, same) ↦ subst IsFlushed (sym same) flushed
    ],
    length-truncate_rows n (s.rows ++ (row ∷ [])),
  )

  append_action-IsSafe :
      (state : BlockState F) (action : Action) (s : HistoryStore (Row F) B)
      → IsSafe parquet n s
      → IsSafe parquet n (append_action parquet (pos (suc n)) state action s).1
  unfolding append_action
  append_action-IsSafe state action s safe = by_row (flatten state action)
    where
      by_row : (r : Result (Row F)) → IsSafe parquet n (append_row parquet (pos (suc n)) r s).1
      by_row (ok row) = append-IsSafe row s safe
      by_row (raised e) = safe

  module _ {W : Type 0} (ports : Ports F W) where
    pub stored-IsKeptBy : IsKeptBy (OfStore (IsSafe parquet n)) (stored parquet (pos (suc n)) ports)
    stored-IsKeptBy =
        OfStore-IsKeptBy (IsSafe parquet n) parquet (pos (suc n)) ports append_action-IsSafe

    -- Over any number of blocks, whatever fails in them, the writes of the store included, a file that
    -- is flushed stays flushed, and a store within its window stays within it.
    pub run-IsSafe :
        (blocks : List ℕ) (s : Loop (W × HistoryStore (Row F) B))
        → IsSafe parquet n s.world.1
        → IsSafe parquet n (run (stored parquet (pos (suc n)) ports) blocks s).world.1
    run-IsSafe blocks s safe =
        run-kept (OfStore (IsSafe parquet n)) (stored parquet (pos (suc n)) ports) stored-IsKeptBy
          blocks s safe
