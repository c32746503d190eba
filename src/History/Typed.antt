-- ===== src/History/Typed.antt =====
-- The event loop with its store: every row of the history has the kinds of its columns.
use event_time_mcdm_agent.Common.{
  ℕ, zero, suc, ◌-◌, ℤ, pos, negsuc, List, [], ◌∷◌, length, drop, All, All-append, Bool, true,
  false, Result, ok, raised, ◌≡◌, refl, if◌then◌else◌,
}
use event_time_mcdm_agent.Float.{Float}
use event_time_mcdm_agent.PerBlockLoop.{BlockState, Action, Ports, Loop, run}
use event_time_mcdm_agent.PerBlockLoop.Keeps.{run-kept}
use event_time_mcdm_agent.PerBlockLoop.Lifted.{OfStore, OfStore-IsKeptBy}
use event_time_mcdm_agent.History.{Parquet, HistoryStore, last_rows, truncate_rows, append}
use event_time_mcdm_agent.History.Flatten.{Row, flatten}
use event_time_mcdm_agent.History.Live.{append_row, append_action, stored}
use event_time_mcdm_agent.History.Schema.{HasSchema, flatten-HasSchema}

module _ {A : Type 0} (P : A → Type 0) where
  All-drop : (n : ℕ) (xs : List A) → All P xs → All P (drop n xs)
  All-drop zero xs h = h
  All-drop (suc n) [] h = tt
  All-drop (suc n) (x ∷ xs) (p, h) = All-drop n xs h

  All-last_rows : (max_rows : ℤ) (xs : List A) → All P xs → All P (last_rows max_rows xs)
  unfolding last_rows
  All-last_rows (pos zero) xs h = h
  All-last_rows (pos (suc n)) xs h = All-drop (length xs - suc n) xs h
  All-last_rows (negsuc n) xs h = All-drop (suc n) xs h

  All-if : (b : Bool) (xs ys : List A) → All P xs → All P ys → All P (if b then xs else ys)
  All-if true xs ys p q = p
  All-if false xs ys p q = q

  All-truncate_rows : (max_rows : ℤ) (xs : List A) → All P xs → All P (truncate_rows max_rows xs)
  unfolding truncate_rows
  All-truncate_rows max_rows xs h = All-if _ _ xs (All-last_rows max_rows xs h) h

module _ {F : Type 0} ⦃f : Float F⦄ {B : Type 0} (parquet : Parquet (Row F) B) (max_rows : ℤ) where
  abbrev pub AreTyped : HistoryStore (Row F) B → Type 0
  AreTyped s = All HasSchema s.rows

  append_action-AreTyped :
      (state : BlockState F) (action : Action) (s : HistoryStore (Row F) B)
      → AreTyped s
      → AreTyped (append_action parquet max_rows state action s).1
  unfolding append_action append
  append_action-AreTyped state action s typed = by_row (flatten state action) refl
    where
      by_row :
          (r : Result (Row F))
          → flatten state action ≡ r
          → AreTyped (append_row parquet max_rows r s).1
      by_row (ok row) e =
          All-truncate_rows HasSchema max_rows _ (
            All-append HasSchema s.rows (row ∷ []) typed (flatten-HasSchema state action row e, tt))
      by_row (raised x) e = typed

  -- Over any number of blocks, whatever fails in them, if the rows of the store have cells of the
  -- kinds that the names of their columns fix, then so have the rows after: a column of the file
  -- is integers, timestamps, floats or words, the same in all rows, whatever the protocols are
  -- called.
  pub run-AreTyped :
      {W : Type 0} (ports : Ports F W) (blocks : List ℕ) (s : Loop (W × HistoryStore (Row F) B))
      → AreTyped s.world.1
      → AreTyped (run (stored parquet max_rows ports) blocks s).world.1
  run-AreTyped ports blocks s typed =
      run-kept (OfStore AreTyped) (stored parquet max_rows ports)
        (OfStore-IsKeptBy AreTyped parquet max_rows ports append_action-AreTyped) blocks s typed
