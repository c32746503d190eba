-- ===== src/PerBlockLoop/Prompt.antt =====
-- Readers whose coroutines never wait, as those of the repository, whose calls are synchronous: no
-- deadline cuts a read, and the reads are back once each task has run.
use event_time_mcdm_agent.Common.{ℕ, zero, suc, ◌≡◌, ◌≢◌, List, [], ◌∷◌, false}
use event_time_mcdm_agent.Float.{Float}
use event_time_mcdm_agent.PerBlockLoop.Concurrent.{
  Resumed, suspended, Progress, reading, finished, ReadTask,
}

module _ {F : Type 0} ⦃f : Float F⦄ {S : Type 0} (resume : S → Resumed F S) where
  -- No coroutine stops at an `await`.
  abbrev pub NeverWaits : Type 0
  NeverWaits = (s s' : S) → resume s ≢ suspended s'

  abbrev IsAtEnd : Progress F S → Type 0
  IsAtEnd (finished d) = Unit
  IsAtEnd _ = ⊥

  abbrev IsNotReading : Progress F S → Type 0
  IsNotReading (reading s) = ⊥
  IsNotReading _ = Unit

  -- The task waits at no `await`, and no deadline has cut it.
  abbrev IsPrompt : ReadTask F S → Type 0
  IsPrompt t = (t.expired ≡ false) × IsNotReading t.progress

  -- The task is back.
  abbrev IsDoneAt : ℕ → List (ReadTask F S) → Type 0
  IsDoneAt i [] = Unit
  IsDoneAt zero (t ∷ ts) = IsAtEnd t.progress
  IsDoneAt (suc i) (t ∷ ts) = IsDoneAt i ts
