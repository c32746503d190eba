-- ===== src/PerBlockLoop/Counted.antt =====
-- The event loop with its sinks: what the counter of the rebalances counts.
use event_time_mcdm_agent.Common.{
  ℕ, zero, suc, ◌≡◌, refl, ap, sym, ◌∙◌, List, [], ◌∷◌, length, map, Option, none, some, String,
  Bool, true, false, Result, ok, raised, Exn, assertion_error, ◌⊎◌, inl, inr, if◌then◌else◌, ◌==◌,
  string_eq, arith,
}
use event_time_mcdm_agent.Common.Exec.{Exec, bind, continue, pure}
use event_time_mcdm_agent.Float.{Float, zero_f, one_f}
use event_time_mcdm_agent.Observability.Registry.{metric_key, observe}
use event_time_mcdm_agent.Observability.Sink.{Observer, record_decision}
use event_time_mcdm_agent.Observability.Balance.{
  counter_of, counter_of-inc, rebalances, rebalances-count_decision,
}
use event_time_mcdm_agent.PerBlockLoop.{
  BlockState, Action, BlockReader, Ports, Loop, prepare, fetch_block_timestamp, read_one, gather,
  switch, submit_private, move, execute, persist, complete, handle_block, run,
}
use event_time_mcdm_agent.PerBlockLoop.Metered.{
  apart, Sensors, count_block, decision_record, metered_reader, metered,
}

module _ {F : Type 0} ⦃f : Float F⦄ where
  -- 0.0 raised by 1.0 so many times.
  abbrev pub ones : ℕ → F
  ones zero = zero_f
  ones (suc n) = f.add (ones n) one_f

  rebalances-observe :
      (name : String) (value : F) (o : Observer F)
      → rebalances (observe name [] value o.metrics) ≡ rebalances o.metrics
  unfolding observe counter_of
  rebalances-observe name value o = refl

  count_block-Keeps :
      (elapsed : F) (o : Observer F)
      → rebalances (count_block elapsed o).metrics ≡ rebalances o.metrics
  unfolding count_block metric_key
  count_block-Keeps elapsed o =
      counter_of-inc "agent_blocks_processed_total" "agent_rebalances_total" [] [] one_f
        (observe "agent_decision_latency_seconds" [] elapsed o.metrics)
      ∙ rebalances-observe "agent_decision_latency_seconds" elapsed o

module _ {F : Type 0} ⦃f : Float F⦄ {W : Type 0} where
  abbrev count : W × Observer F → F
  count s = rebalances s.1.metrics

  -- An action that leaves the counter.
  abbrev Keeps : {A : Type 0} → Exec (W × Observer F) A → Type 0
  Keeps m = (s : W × Observer F) → count (m s).1 ≡ count s

  continue-Keeps :
      {A B : Type 0} (r : Result A) (k : A → Exec (W × Observer F) B) (s : W × Observer F)
      → ((a : A) → Keeps (k a))
      → count (continue r k s).1 ≡ count s
  continue-Keeps (ok a) k s g = g a s
  continue-Keeps (raised e) k s g = refl

  bind-Keeps :
      {A B : Type 0} (m : Exec (W × Observer F) A) (k : A → Exec (W × Observer F) B)
      → Keeps m
      → ((a : A) → Keeps (k a))
      → Keeps (bind m k)
  unfolding bind
  bind-Keeps m k h g s = continue-Keeps (m s).0 k (m s).1 g ∙ h s

  -- The counter is the number of the submissions that returned.
  abbrev pub IsCounted : Loop (W × Observer F) → Type 0
  IsCounted s = count s.world ≡ ones (length s.submitted)

  module _ (sensors : Sensors F W) (ports : Ports F W) where
    gather-Keeps :
        (block_number : ℕ) (readers : List (BlockReader F W)) (s : W × Observer F)
        → (gather block_number (map metered_reader readers) s).1.1 ≡ s.1
    unfolding gather read_one apart
    gather-Keeps n [] s = refl
    gather-Keeps n (r ∷ rest) s = gather-Keeps n rest ((r.read_at_block n s.0).1, s.1)

    fetch_block_timestamp-Keeps :
        (block_number : ℕ) (s : W × Observer F)
        → (fetch_block_timestamp (metered sensors ports) block_number s).1.1 ≡ s.1
    unfolding fetch_block_timestamp apart metered
    fetch_block_timestamp-Keeps n s = ground arith

    prepare-Keeps :
        (current : Option String) (block_number : ℕ)
        → Keeps (prepare (metered sensors ports) current block_number)
    unfolding prepare metered apart
    prepare-Keeps current n s =
        bind-Keeps _ _ (λ t. refl)
          (λ raw.
            bind-Keeps _ _ (λ t. refl)
              (λ price.
                bind-Keeps _ _ (λ t. refl)
                  (λ checked. bind-Keeps _ _ (λ t. refl) (λ action t. count_block-Keeps _ t.1))))
          read
        ∙ ap (λ o. rebalances o.metrics) kept
      where
        gas : W × Observer F
        gas = ((metered sensors ports).gas_price s).1

        stamped : W × Observer F
        stamped = (fetch_block_timestamp (metered sensors ports) n gas).1

        read : W × Observer F
        read = (gather n (map metered_reader ports.readers) stamped).1

        kept : read.1 ≡ s.1
        kept = gather-Keeps n ports.readers stamped ∙ fetch_block_timestamp-Keeps n gas

    -- A switch was submitted, or it raised and nothing was.
    abbrev Switched : Result (Unit {0}) × Loop (W × Observer F) → Loop (W × Observer F) → Type 0
    Switched (r, s') s =
        ((r ≡ ok tt) × (length s'.submitted ≡ suc (length s.submitted)) × (s'.world.1 ≡ s.world.1))
        ⊎ ((e : Exn) × (r ≡ raised e) × (s'.submitted ≡ s.submitted) × (s'.world.1 ≡ s.world.1))

    switch-Switched :
        (state : BlockState F) (target : Option String) (s : Loop (W × Observer F))
        → Switched (switch (metered sensors ports) state target s) s
    unfolding switch submit_private move bind metered apart
    switch-Switched state none s = inr (assertion_error, refl, refl, refl)
    switch-Switched state (some target) s = ground arith

    -- The decision is counted before the history is appended to, which may raise.
    persist-count :
        (state : BlockState F) (action : Action) (s : Loop (W × Observer F))
        → let s' = (bind (persist (metered sensors ports) state action) (λ _. pure action) s).1 in
          (count s'.world
            ≡ (if action.kind == "switch" then f.add (count s.world) one_f else count s.world))
          × (s'.submitted ≡ s.submitted)
    unfolding persist bind metered apart record_decision decision_record
    persist-count state action s = after (ports.append state action s.world.0).0 (
        rebalances-count_decision
          (decision_record sensors.isoformat state action s.current_protocol) s.world.1.metrics)
      where
        next : Loop (W × Observer F)
        next = (persist (metered sensors ports) state action s).1

        after :
            (r : Result (Unit {0}))
            → count next.world
              ≡ (if action.kind == "switch" then f.add (count s.world) one_f else count s.world)
            → (count (continue r (λ _. pure action) next).1.world
                ≡ (if action.kind == "switch" then f.add (count s.world) one_f else count s.world))
              × ((continue r (λ _. pure action) next).1.submitted ≡ s.submitted)
        after (ok x) e = (e, refl)
        after (raised x) e = (e, refl)

    -- What follows the step 5 counts the switch that it made.
    finish-IsCounted :
        (rest : Exec (Loop (W × Observer F)) Action) (r : Result (Unit {0})) (b : Bool)
        (s s' : Loop (W × Observer F))
        → ((t : Loop (W × Observer F))
            → (count (rest t).1.world ≡ (if b then f.add (count t.world) one_f else count t.world))
              × ((rest t).1.submitted ≡ t.submitted))
        → IsCounted s
        → (if b then Switched (r, s') s else ((r ≡ ok tt) × (s' ≡ s)))
        → IsCounted (continue r (λ _. rest) s').1
    finish-IsCounted rest r false s s' after h (e, same) =
        rw (e, same) ((after s).0 ∙ h ∙ ap (λ l. ones (length l)) (sym (after s).1))
    finish-IsCounted rest r true s s' after h (inl (e, more, seen)) = rw e (
        (after s').0
        ∙ ap (λ o. f.add (rebalances o.metrics) one_f) seen
        ∙ ap (λ c. f.add c one_f) h
        ∙ ap ones (sym more)
        ∙ ap (λ l. ones (length l)) (sym (after s').1))
    finish-IsCounted rest r true s s' after h (inr (x, e, same, seen)) =
        rw e (ap (λ o. rebalances o.metrics) seen ∙ h ∙ ap (λ l. ones (length l)) (sym same))

    complete-IsCounted :
        (decided : BlockState F × Action) (s : Loop (W × Observer F))
        → IsCounted s
        → IsCounted (complete (metered sensors ports) decided s).1
    unfolding complete bind execute
    complete-IsCounted (state, action) s h =
        finish-IsCounted (bind (persist (metered sensors ports) state action) (λ _. pure action))
          (execute (metered sensors ports) state action s).0 (action.kind == "switch") s
          (execute (metered sensors ports) state action s).1 (persist-count state action) h
          (executed (action.kind == "switch"))
      where
        acts : Bool → Exec (Loop (W × Observer F)) (Unit {0})
        acts b = if b then switch (metered sensors ports) state action.target_protocol else pure tt

        executed :
            (b : Bool)
            → (if b then Switched (acts b s) s else (((acts b s).0 ≡ ok tt) × ((acts b s).1 ≡ s)))
        executed true = switch-Switched state action.target_protocol s
        executed false = (refl, refl)

    decided-IsCounted :
        (r : Result (BlockState F × Action)) (s : Loop (W × Observer F))
        → IsCounted s
        → IsCounted (continue r (complete (metered sensors ports)) s).1
    decided-IsCounted (ok decided) s h = complete-IsCounted decided s h
    decided-IsCounted (raised e) s h = h

    handle_block-IsCounted :
        (block_number : ℕ) (s : Loop (W × Observer F))
        → IsCounted s
        → IsCounted (handle_block (metered sensors ports) block_number s).1
    unfolding handle_block bind
    handle_block-IsCounted n s h =
        decided-IsCounted (prepare (metered sensors ports) s.current_protocol n s.world).0
          (record s { world = (prepare (metered sensors ports) s.current_protocol n s.world).1 })
          (prepare-Keeps s.current_protocol n s.world ∙ h)

    -- Whatever the policy, the relay, the readers, the history and the audit trail do, exceptions
    -- included, after any number of blocks the counter of the rebalances is 1.0 for each submission
    -- that returned, when it was so before.
    pub run-IsCounted :
        (blocks : List ℕ) (s : Loop (W × Observer F))
        → IsCounted s
        → IsCounted (run (metered sensors ports) blocks s)
    unfolding run
    run-IsCounted [] s h = h
    run-IsCounted (n ∷ rest) s h =
        run-IsCounted rest (handle_block (metered sensors ports) n s).1
          (handle_block-IsCounted n s h)
