-- ===== src/History/Blocks.antt =====
-- The event loop with its store, block by block: a block that returns appends its row, and a block
-- that raises leaves the store as it was, or with a row that was not written.
use event_time_mcdm_agent.Common.{
  ℕ, suc, ◌+◌, ◌≤◌, ◌++◌, ℤ, List, [], ◌∷◌, length, Option, All, String, Result, ok, raised, Exn,
  ◌≡◌, refl, ap, ◌∙◌, ◌⊎◌, inl, inr, arith, subst,
}
use event_time_mcdm_agent.Common.Exec.{Exec, bind, continue, pure}
use event_time_mcdm_agent.Float.{Float}
use event_time_mcdm_agent.PerBlockLoop.{
  BlockState, Action, Ports, Loop, prepare, fetch_block_timestamp, execute, switch, submit_private,
  move, to_gwei, assemble, persist, complete, handle_block, run,
}
use event_time_mcdm_agent.PerBlockLoop.Metered.{apart}
use event_time_mcdm_agent.PerBlockLoop.Keeps.{IsKeptBy, prepare-IsKept, execute-kept}
use event_time_mcdm_agent.PerBlockLoop.Lifted.{OfStore, OfStore-AreReadersKept}
use event_time_mcdm_agent.History.{Parquet, HistoryStore, append, append_all}
use event_time_mcdm_agent.History.Writes.{file_of, HasWritten, append-HasWritten}
use event_time_mcdm_agent.History.Flatten.{Row, flatten}
use event_time_mcdm_agent.History.Live.{append_row, append_action, stored}

module _ {F : Type 0} where
  -- The row of a block.
  abbrev pub IsBlockRow : Row F → Type 0
  IsBlockRow row = (state : BlockState F) × (action : Action) × (flatten state action ≡ ok row)

abbrev one_if_ok : Result Action → ℕ
one_if_ok (ok action) = 1
one_if_ok (raised e) = 0

module _ {F : Type 0} ⦃f : Float F⦄ {B : Type 0} (parquet : Parquet (Row F) B) (max_rows : ℤ)
    {W : Type 0} (ports : Ports F W) where
  abbrev System : Type 0
  System = Loop (W × HistoryStore (Row F) B)

  -- The same loop with a store that nothing is appended to.
  abbrev unlogged : Ports F (W × HistoryStore (Row F) B)
  unlogged = record (stored parquet max_rows ports) { append = λ state action. pure tt }

  module _ (store : HistoryStore (Row F) B) where
    abbrev IsStore : HistoryStore (Row F) B → Type 0
    IsStore s = s ≡ store

    unlogged-IsKeptBy : IsKeptBy (OfStore IsStore) unlogged
    unfolding stored apart
    unlogged-IsKeptBy = record {
      readers_kept = OfStore-AreReadersKept IsStore ports.readers;
      gas_price_kept = λ targets w p. p;
      get_block_kept = λ targets k w p. p;
      utcnow_kept = λ targets w p. p;
      price_kept = λ targets w p. p;
      decide_kept = λ targets state w p. p;
      count_kept = λ targets w p. p;
      submit_kept = λ target state targets w p. p;
      record_kept = λ targets state action current w p. p;
      append_kept = λ targets state action w p. p;
    }

  -- Neither the steps 1 to 4 nor the step 5 touch the store.
  prepare-store :
      (current : Option String) (n : ℕ) (w : W × HistoryStore (Row F) B)
      → (prepare (stored parquet max_rows ports) current n w).1.1 ≡ w.1
  unfolding prepare fetch_block_timestamp stored to_gwei assemble
  prepare-store current n w =
      prepare-IsKept (OfStore (IsStore w.1)) unlogged (unlogged-IsKeptBy w.1) [] current n w refl

  execute-store :
      (state : BlockState F) (action : Action) (s : System)
      → (execute (stored parquet max_rows ports) state action s).1.world.1 ≡ s.world.1
  unfolding execute switch submit_private move stored
  execute-store state action s =
      execute-kept (OfStore (IsStore s.world.1)) unlogged (unlogged-IsKeptBy s.world.1) state action
        s refl

  -- How a block whose row was appended ended: its write returned or raised.
  abbrev Ended : Result Action → HistoryStore (Row F) B → HistoryStore (Row F) B → Type 0
  Ended r before after =
      ((action : Action) × (r ≡ ok action) × (after.disk.live ≡ file_of parquet after.rows))
      ⊎ ((e : Exn) × (r ≡ raised e) × (after.disk.live ≡ before.disk.live))

  -- The block raised and the store is what it was, or its row was appended.
  abbrev pub Logs : Result Action → HistoryStore (Row F) B → HistoryStore (Row F) B → Type 0
  Logs r before after =
      ((e : Exn) × (r ≡ raised e) × (after ≡ before))
      ⊎ ((row : Row F) × IsBlockRow row
          × (after ≡ (append parquet max_rows row before).1)
          × Ended r before after)

  persist-Logs :
      (state : BlockState F) (action : Action) (s : System)
      → let after =
          bind (persist (stored parquet max_rows ports) state action) (λ x. pure action) s in
        Logs after.0 s.world.1 after.1.world.1
  unfolding bind persist stored append_action
  persist-Logs state action s = by_row (flatten state action) refl
    where
      ended : Result (Unit {0}) × HistoryStore (Row F) B → Result Action × System
      ended stored_row =
          continue stored_row.0 (λ x. pure action)
            (record s {
              world =
                  (ports.record_decision state action s.current_protocol s.world.0, stored_row.1);
            })

      by_write :
          (row : Row F)
          → flatten state action ≡ ok row
          → (c : Result (Unit {0}) × HistoryStore (Row F) B)
          → c ≡ append parquet max_rows row s.world.1
          → HasWritten parquet c.1.rows s.world.1.disk.live c.0 c.1.disk.live
          → Logs (ended c).0 s.world.1 (ended c).1.world.1
      by_write row flat (ok x, after) e (inl (returned, same)) =
          inr (row, (state, action, flat), ap (λ p. p.1) e, inl (action, refl, same))
      by_write row flat (ok x, after) e (inr (exn, raises, same)) = absurd cc
      by_write row flat (raised exn, after) e (inl (returned, same)) = absurd cc
      by_write row flat (raised exn, after) e (inr (exn', raises, same)) =
          inr (row, (state, action, flat), ap (λ p. p.1) e, inr (exn, refl, same))

      by_row :
          (r : Result (Row F))
          → flatten state action ≡ r
          → let after = ended (append_row parquet max_rows r s.world.1) in
            Logs after.0 s.world.1 after.1.world.1
      by_row (ok row) e = by_write row e _ refl (append-HasWritten parquet max_rows row s.world.1)
      by_row (raised x) e = inl (x, refl, refl)

  subst-Logs :
      (r : Result Action) (before before' after : HistoryStore (Row F) B)
      → before' ≡ before
      → Logs r before' after
      → Logs r before after
  subst-Logs r before before' after e logs = subst (λ b. Logs r b after) e logs

  complete-Logs :
      (decided : BlockState F × Action) (s : System)
      → let after = complete (stored parquet max_rows ports) decided s in
        Logs after.0 s.world.1 after.1.world.1
  unfolding complete bind
  complete-Logs (state, action) s =
      by_result (execute (stored parquet max_rows ports) state action s).0
    where
      next : System
      next = (execute (stored parquet max_rows ports) state action s).1

      rest : Exec System Action
      rest = bind (persist (stored parquet max_rows ports) state action) (λ x. pure action)

      by_result :
          (r : Result (Unit {0}))
          → let after = continue r (λ x. rest) next in Logs after.0 s.world.1 after.1.world.1
      by_result (ok x) =
          subst-Logs (rest next).0 s.world.1 next.world.1 (rest next).1.world.1
            (execute-store state action s) (persist-Logs state action next)
      by_result (raised e) = inl (e, refl, execute-store state action s)

  handle_block-Logs :
      (n : ℕ) (s : System)
      → let after = handle_block (stored parquet max_rows ports) n s in
        Logs after.0 s.world.1 after.1.world.1
  unfolding handle_block bind
  handle_block-Logs n s =
      by_result (prepare (stored parquet max_rows ports) s.current_protocol n s.world).0
    where
      next : System
      next = record s {
        world = (prepare (stored parquet max_rows ports) s.current_protocol n s.world).1;
      }

      by_result :
          (r : Result (BlockState F × Action))
          → let after = continue r (complete (stored parquet max_rows ports)) next in
            Logs after.0 s.world.1 after.1.world.1
      by_result (ok decided) =
          let after = complete (stored parquet max_rows ports) decided next in
          subst-Logs after.0 s.world.1 next.world.1 after.1.world.1
            (prepare-store s.current_protocol n s.world) (complete-Logs decided next)
      by_result (raised e) = inl (e, refl, prepare-store s.current_protocol n s.world)

  -- How many of the blocks return an action.
  abbrev pub returned_blocks : List ℕ → System → ℕ
  returned_blocks [] s = 0
  returned_blocks (n ∷ rest) s =
      one_if_ok (handle_block (stored parquet max_rows ports) n s).0
      + returned_blocks rest (handle_block (stored parquet max_rows ports) n s).1

  -- The file after these rows of a store: that of the store, if there are none, or else flushed
  -- bytes of what the appends keep.
  abbrev pub IsWritten : List (Row F) → HistoryStore (Row F) B → HistoryStore (Row F) B → Type 0
  IsWritten [] before after = after.disk.live ≡ before.disk.live
  IsWritten (row ∷ rest) before after =
      after.disk.live ≡ file_of parquet (append_all parquet max_rows (row ∷ rest) before).rows

  -- A store after the rows of at most `m` blocks. The first of them are in the file, at least `k`.
  pub record IsAppended (k m : ℕ) (before after : HistoryStore (Row F) B) : Type 0 where
    pub written : List (Row F)
    pub unwritten : List (Row F)
    pub enough : k ≤ length written
    pub few : length (written ++ unwritten) ≤ m
    pub of_blocks : All IsBlockRow (written ++ unwritten)
    pub appended : after ≡ append_all parquet max_rows (written ++ unwritten) before
    pub file : IsWritten written before after

  -- One row before those of the later blocks.
  prepend :
      (row : Row F) (r : Result Action) (k m : ℕ) (a c : HistoryStore (Row F) B)
      → let b = (append parquet max_rows row a).1 in
        IsBlockRow row
        → Ended r a b
        → (written unwritten : List (Row F)) → k ≤ length written
        → length (written ++ unwritten) ≤ m
        → All IsBlockRow (written ++ unwritten)
        → c ≡ append_all parquet max_rows (written ++ unwritten) b
        → IsWritten written b c
        → IsAppended (one_if_ok r + k) (suc m) a c
  unfolding append_all
  prepend row r k m a c block (inl (action, returns, same)) [] later enough few good e file =
      rw returns record {
        written = row ∷ [];
        unwritten = later;
        enough = omega arith;
        few = omega arith;
        of_blocks = (block, good);
        appended = e;
        file = file ∙ same;
      }
  prepend row r k m a c block (inr (exn, raises, same)) [] later enough few good e file =
      rw raises record {
        written = [];
        unwritten = row ∷ later;
        enough = omega arith;
        few = omega arith;
        of_blocks = (block, good);
        appended = e;
        file = file ∙ same;
      }
  prepend row r k m a c block (inl (action, returns, same)) (x ∷ xs) later enough few good e file =
      rw returns record {
        written = row ∷ x ∷ xs;
        unwritten = later;
        enough = omega arith;
        few = omega arith;
        of_blocks = (block, good);
        appended = e;
        file = file;
      }
  prepend row r k m a c block (inr (exn, raises, same)) (x ∷ xs) later enough few good e file =
      rw raises record {
        written = row ∷ x ∷ xs;
        unwritten = later;
        enough = omega arith;
        few = omega arith;
        of_blocks = (block, good);
        appended = e;
        file = file;
      }

  Logs-IsAppended :
      (r : Result Action) (k m : ℕ) (a b c : HistoryStore (Row F) B)
      → Logs r a b
      → IsAppended k m b c
      → IsAppended (one_if_ok r + k) (suc m) a c
  Logs-IsAppended r k m a b c (inl (e, raises, same)) p = rw raises (
      subst (λ s. IsAppended (0 + k) (suc m) s c) same
        record {
          written = p.written;
          unwritten = p.unwritten;
          enough = omega (arith, p.enough);
          few = omega (arith, p.few);
          of_blocks = p.of_blocks;
          appended = p.appended;
          file = p.file;
        })
  Logs-IsAppended r k m a b c (inr (row, block, more, ended)) p =
      let q = subst (λ s. IsAppended k m s c) more p in
      prepend row r k m a c block (subst (Ended r a) more ended) q.written q.unwritten q.enough
        q.few q.of_blocks q.appended q.file

  -- The store of the loop refines the store alone: over any number of blocks, whatever fails in
  -- them, it is what the appends of the rows of some of the blocks make of it, in their order.
  pub run-IsAppended :
      (blocks : List ℕ) (s : System)
      → IsAppended
          (returned_blocks blocks s)
          (length blocks)
          s.world.1
          (run (stored parquet max_rows ports) blocks s).world.1
  unfolding run append_all
  run-IsAppended [] s = record {
    written = [];
    unwritten = [];
    enough = omega arith;
    few = omega arith;
    of_blocks = tt;
    appended = refl;
    file = refl;
  }
  run-IsAppended (n ∷ rest) s =
      let after = handle_block (stored parquet max_rows ports) n s in
      Logs-IsAppended after.0 (returned_blocks rest after.1) (length rest) s.world.1 after.1.world.1
        _ (handle_block-Logs n s) (run-IsAppended rest after.1)
