-- ===== src/PerBlockLoop/Concurrent.antt =====
-- agent/per_block_loop.py: the reads of a block as tasks of the event loop. A task runs from one `await`
-- to the next when it is resumed, and `wait_for` can end it at an `await` when its deadline passes.
-- The order in which the event loop does this is a schedule, which is any list of events.
use event_time_mcdm_agent.Common.{
  ℕ, zero, suc, ℤ, Option, none, some, List, [], ◌∷◌, map, String, Bool, true, false, Exn,
}
use event_time_mcdm_agent.Float.{Float}
use event_time_mcdm_agent.Protocols.{ProtocolData}
use event_time_mcdm_agent.PerBlockLoop.{BlockReader, stale_snapshot}

-- What a coroutine does until its next `await`: `S` is what it keeps. The calls of a read are pinned
-- to the block, so their answers are no part of the schedule.
pub data Resumed (F S : Type 0) : Type 0 where
  suspended : S → Resumed F S
  returned : ProtocolData F → Resumed F S
  failed : Exn → Resumed F S

-- A task that has not run yet; one that waits at an `await`; one that is back.
pub data Progress (F S : Type 0) : Type 0 where
  ready : S → Progress F S
  reading : S → Progress F S
  finished : ProtocolData F → Progress F S

-- A task for `_read_one`. `expired` is no part of the program: it notes a deadline that passed.
pub record ReadTask (F S : Type 0) : Type 0 where
  pub label : String
  pub adapter_index : ℤ
  pub progress : Progress F S
  pub expired : Bool

pub data Event : Type 0 where
  resumes : ℕ → Event
  expires : ℕ → Event

module _ {F : Type 0} ⦃f : Float F⦄ {S : Type 0} where
  abbrev pub stale_of : ReadTask F S → ProtocolData F
  stale_of t = stale_snapshot t.label t.adapter_index

  -- `return await ...`, and the handler of an exception.
  unfoldable pub settle : ReadTask F S → Resumed F S → ReadTask F S
  settle t (suspended s) = record t { progress = reading s }
  settle t (returned d) = record t { progress = finished d }
  settle t (failed e) = record t { progress = finished (stale_of t) }

  -- The handler of a timeout, which can cut a coroutine at an `await` only: what runs up to the
  -- next one, or to its end, is never interrupted, and a task runs before its timeout is seen.
  unfoldable pub expire : ReadTask F S → Progress F S → ReadTask F S
  expire t (ready s) = t
  expire t (reading s) = record t { progress = finished (stale_of t); expired = true }
  expire t (finished d) = t

  module _ (resume : S → Resumed F S) where
    unfoldable pub turn : ReadTask F S → Progress F S → ReadTask F S
    turn t (ready s) = settle t (resume s)
    turn t (reading s) = settle t (resume s)
    turn t (finished d) = t

    -- One event of the event loop. No task has an index out of range.
    unfoldable pub on_event : Event → List (ReadTask F S) → List (ReadTask F S)
    on_event e [] = []
    on_event (resumes zero) (t ∷ ts) = turn t t.progress ∷ ts
    on_event (expires zero) (t ∷ ts) = expire t t.progress ∷ ts
    on_event (resumes (suc i)) (t ∷ ts) = t ∷ on_event (resumes i) ts
    on_event (expires (suc i)) (t ∷ ts) = t ∷ on_event (expires i) ts

    unfoldable pub run_schedule : List Event → List (ReadTask F S) → List (ReadTask F S)
    run_schedule [] ts = ts
    run_schedule (e ∷ es) ts = run_schedule es (on_event e ts)

  -- The snapshot of a task that is finished beside those of the rest.
  abbrev pub with_rest :
      String
      → Progress F S
      → Option (List (String × ProtocolData F))
      → Option (List (String × ProtocolData F))
  with_rest label (finished d) (some ds) = some ((label, d) ∷ ds)
  with_rest label _ _ = none

  -- `asyncio.gather`: the snapshots in the order of the labels, once no task is unfinished.
  unfoldable pub gathered : List (ReadTask F S) → Option (List (String × ProtocolData F))
  gathered [] = some []
  gathered (t ∷ ts) = with_rest t.label t.progress (gathered ts)

  module _ {W : Type 0} where
    -- `create_task` of `_read_one`, for a reader and what its coroutine starts with.
    abbrev pub start_task : BlockReader F W × S → ReadTask F S
    start_task (r, s) = record {
      label = r.label;
      adapter_index = r.adapter_index;
      progress = ready s;
      expired = false;
    }

    -- The list of `reader_tasks`.
    unfoldable pub start_tasks : List (BlockReader F W × S) → List (ReadTask F S)
    start_tasks readers = map start_task readers
