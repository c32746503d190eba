-- ===== src/PerBlockLoop/Schedules.antt =====
-- Whatever the order in which the reads of a block run, their snapshots are the same.
use event_time_mcdm_agent.Common.{
  ℕ, zero, suc, ◌≡◌, refl, sym, ◌∙◌, Option, none, some, List, [], ◌∷◌, map, String, true, false,
  Exn, Result, ok, raised, ◌⊎◌, inl, inr, subst, some_injective,
}
use event_time_mcdm_agent.Float.{Float}
use event_time_mcdm_agent.Protocols.{ProtocolData}
use event_time_mcdm_agent.PerBlockLoop.{BlockReader, or_stale, read_one, gather}
use event_time_mcdm_agent.PerBlockLoop.Concurrent.{
  Resumed, suspended, returned, failed, Progress, ready, reading, finished, ReadTask, Event,
  resumes, expires, stale_of, settle, expire, turn, on_event, run_schedule, with_rest, gathered,
  start_task, start_tasks,
}

module _ {F : Type 0} ⦃f : Float F⦄ {S : Type 0} (resume : S → Resumed F S) where
  -- The result of a read that runs to its end with nothing between its steps.
  pub data Reads : S → Result (ProtocolData F) → Type 0 where
    at_return : {s : S} {d : ProtocolData F} → resume s ≡ returned d → Reads s (ok d)
    at_failure : {s : S} {e : Exn} → resume s ≡ failed e → Reads s (raised e)
    at_await :
        {s s' : S} {r : Result (ProtocolData F)} → resume s ≡ suspended s' → Reads s' r → Reads s r

  abbrev answer_of : ReadTask F S → Result (ProtocolData F) → ProtocolData F
  answer_of t (ok d) = d
  answer_of t (raised e) = stale_of t

  -- A task is on its way to a snapshot, has it, or is stale because its deadline passed.
  abbrev IsToward : ProtocolData F → ReadTask F S → Progress F S → Type 0
  IsToward snap t (ready s) =
      (t.expired ≡ false) × (r : Result (ProtocolData F)) × Reads s r × (snap ≡ answer_of t r)
  IsToward snap t (reading s) =
      (t.expired ≡ false) × (r : Result (ProtocolData F)) × Reads s r × (snap ≡ answer_of t r)
  IsToward snap t (finished d) =
      ((t.expired ≡ false) × (d ≡ snap)) ⊎ ((t.expired ≡ true) × (d ≡ stale_of t))

  abbrev AreToward : List (String × ProtocolData F) → List (ReadTask F S) → Type 0
  AreToward [] [] = Unit
  AreToward [] (t ∷ ts) = ⊥
  AreToward (snap ∷ snaps) [] = ⊥
  AreToward (snap ∷ snaps) (t ∷ ts) =
      (t.label ≡ snap.0) × IsToward snap.1 t t.progress × AreToward snaps ts

  settle-IsToward :
      (snap : ProtocolData F) (t : ReadTask F S) (s : S) (r : Result (ProtocolData F))
      → t.expired ≡ false
      → Reads s r
      → snap ≡ answer_of t r
      → IsToward snap (settle t (resume s)) (settle t (resume s)).progress
  unfolding settle
  settle-IsToward snap t s _ on_time (at_return e) same = rw e (inl (on_time, sym same))
  settle-IsToward snap t s _ on_time (at_failure e) same = rw e (inl (on_time, sym same))
  settle-IsToward snap t s r on_time (at_await e later) same = rw e (on_time, r, later, same)

  turn-IsToward :
      (snap : ProtocolData F) (t : ReadTask F S) (p : Progress F S)
      → t.progress ≡ p
      → IsToward snap t p
      → IsToward snap (turn resume t p) (turn resume t p).progress
  unfolding turn
  turn-IsToward snap t (ready s) e (on_time, r, reads, same) =
      settle-IsToward snap t s r on_time reads same
  turn-IsToward snap t (reading s) e (on_time, r, reads, same) =
      settle-IsToward snap t s r on_time reads same
  turn-IsToward snap t (finished d) e toward = rw e toward

  expire-IsToward :
      (snap : ProtocolData F) (t : ReadTask F S) (p : Progress F S)
      → t.progress ≡ p
      → IsToward snap t p
      → IsToward snap (expire t p) (expire t p).progress
  unfolding expire
  expire-IsToward snap t (ready s) e toward = rw e toward
  expire-IsToward snap t (reading s) e toward = inr (refl, refl)
  expire-IsToward snap t (finished d) e toward = rw e toward

  settle-label : (t : ReadTask F S) (a : Resumed F S) → (settle t a).label ≡ t.label
  unfolding settle
  settle-label t (suspended s) = refl
  settle-label t (returned d) = refl
  settle-label t (failed e) = refl

  turn-label : (t : ReadTask F S) (p : Progress F S) → (turn resume t p).label ≡ t.label
  unfolding turn
  turn-label t (ready s) = settle-label t (resume s)
  turn-label t (reading s) = settle-label t (resume s)
  turn-label t (finished d) = refl

  expire-label : (t : ReadTask F S) (p : Progress F S) → (expire t p).label ≡ t.label
  unfolding expire
  expire-label t (ready s) = refl
  expire-label t (reading s) = refl
  expire-label t (finished d) = refl

  on_event-AreToward :
      (e : Event) (snaps : List (String × ProtocolData F)) (ts : List (ReadTask F S))
      → AreToward snaps ts
      → AreToward snaps (on_event resume e ts)
  unfolding on_event
  on_event-AreToward e [] [] h = h
  on_event-AreToward e [] (t ∷ ts) h = absurd h
  on_event-AreToward e (snap ∷ snaps) [] h = absurd h
  on_event-AreToward (resumes zero) (snap ∷ snaps) (t ∷ ts) (label, toward, rest) =
      (turn-label t t.progress ∙ label, turn-IsToward snap.1 t t.progress refl toward, rest)
  on_event-AreToward (expires zero) (snap ∷ snaps) (t ∷ ts) (label, toward, rest) =
      (expire-label t t.progress ∙ label, expire-IsToward snap.1 t t.progress refl toward, rest)
  on_event-AreToward (resumes (suc i)) (snap ∷ snaps) (t ∷ ts) (label, toward, rest) =
      (label, toward, on_event-AreToward (resumes i) snaps ts rest)
  on_event-AreToward (expires (suc i)) (snap ∷ snaps) (t ∷ ts) (label, toward, rest) =
      (label, toward, on_event-AreToward (expires i) snaps ts rest)

  run_schedule-AreToward :
      (es : List Event) (snaps : List (String × ProtocolData F)) (ts : List (ReadTask F S))
      → AreToward snaps ts
      → AreToward snaps (run_schedule resume es ts)
  unfolding run_schedule
  run_schedule-AreToward [] snaps ts h = h
  run_schedule-AreToward (e ∷ es) snaps ts h =
      run_schedule-AreToward es snaps (on_event resume e ts) (on_event-AreToward e snaps ts h)

  -- Each snapshot is the given one, or the stale one of a task whose deadline passed.
  abbrev pub AreAlike :
      List (String × ProtocolData F) → List (String × ProtocolData F) → List (ReadTask F S) → Type 0
  AreAlike (g ∷ got) (snap ∷ snaps) (t ∷ ts) =
      (g.0 ≡ snap.0)
      × (((t.expired ≡ false) × (g.1 ≡ snap.1)) ⊎ ((t.expired ≡ true) × (g.1 ≡ stale_of t)))
      × AreAlike got snaps ts
  AreAlike [] [] [] = Unit
  AreAlike _ _ _ = ⊥

  with_rest-eq-some :
      (label : String) (p : Progress F S) (rest : Option (List (String × ProtocolData F)))
      (got : List (String × ProtocolData F))
      → with_rest label p rest ≡ some got
      → (d : ProtocolData F) × (ds : List (String × ProtocolData F)) × (p ≡ finished d)
        × (rest ≡ some ds)
        × ((label, d) ∷ ds ≡ got)
  with_rest-eq-some label (finished d) (some ds) got h = (d, ds, refl, refl, some_injective _ _ h)
  with_rest-eq-some label (finished d) none got h = cc
  with_rest-eq-some label (ready s) rest got h = cc
  with_rest-eq-some label (reading s) rest got h = cc

  gathered-AreAlike :
      (snaps : List (String × ProtocolData F)) (ts : List (ReadTask F S))
      (got : List (String × ProtocolData F))
      → AreToward snaps ts
      → gathered ts ≡ some got
      → AreAlike got snaps ts
  unfolding gathered
  gathered-AreAlike [] [] got h e = subst (λ g. AreAlike g [] []) (some_injective _ _ e) tt
  gathered-AreAlike [] (t ∷ ts) got h e = absurd h
  gathered-AreAlike (snap ∷ snaps) [] got h e = absurd h
  gathered-AreAlike (snap ∷ snaps) (t ∷ ts) got (label, toward, rest) e =
      let (d, ds, p, more, same) = with_rest-eq-some t.label t.progress (gathered ts) got e in
      subst (λ g. AreAlike g (snap ∷ snaps) (t ∷ ts)) same
        (label, subst (IsToward snap.1 t) p toward, gathered-AreAlike snaps ts ds rest more)

module _ {F : Type 0} ⦃f : Float F⦄ {S W : Type 0} (resume : S → Resumed F S) where
  -- Each coroutine, run alone, gives what the reader's call gives when the reads run one by one.
  abbrev pub AreRun : ℕ → List (BlockReader F W × S) → W → Type 0
  AreRun n [] w = Unit
  AreRun n ((r, s) ∷ rest) w =
      Reads resume s (r.read_at_block n w).0 × AreRun n rest (r.read_at_block n w).1

  abbrev pub just_readers : List (BlockReader F W × S) → List (BlockReader F W)
  just_readers = map (λ (p : BlockReader F W × S). p.0)

  start-AreToward :
      (n : ℕ) (readers : List (BlockReader F W × S)) (w : W)
      → AreRun n readers w
      → AreToward resume (gather n (just_readers readers) w).0 (start_tasks readers)
  unfolding gather read_one start_tasks
  start-AreToward n [] w h = tt
  start-AreToward n ((r, s) ∷ rest) w (reads, h) = (
    refl,
    (refl, (r.read_at_block n w).0, reads, same (r.read_at_block n w).0),
    start-AreToward n rest (r.read_at_block n w).1 h,
  )
    where
      same :
          (result : Result (ProtocolData F))
          → or_stale r result ≡ answer_of resume (start_task (r, s)) result
      same (ok d) = refl
      same (raised e) = refl

  -- If each coroutine, run alone, gives what the call of its reader gives when the reads run one by
  -- one, then the reads of a block may run in any order, in pieces, with any of the deadlines
  -- passing: once all are back, each snapshot stands under its label and is the one of the reads one
  -- by one, or the stale one if that read's deadline passed.
  pub run_schedule-AreAlike :
      (n : ℕ) (readers : List (BlockReader F W × S)) (w : W) (es : List Event)
      (got : List (String × ProtocolData F))
      → AreRun n readers w
      → gathered (run_schedule resume es (start_tasks readers)) ≡ some got
      → AreAlike resume got
          (gather n (just_readers readers) w).0
          (run_schedule resume es (start_tasks readers))
  run_schedule-AreAlike n readers w es got h e =
      gathered-AreAlike resume _ _ got
        (run_schedule-AreToward resume es _ _ (start-AreToward n readers w h)) e
