-- ===== src/PerBlockLoop/Keeps.antt =====
-- A property of the submissions and the world that every object of the loop keeps is kept by the loop.
use event_time_mcdm_agent.Common.{
  ℕ, List, [], ◌∷◌, All, Option, none, some, String, Bool, true, false, Result, ok, raised,
  if◌then◌else◌, ◌==◌, string_eq, ◌≡◌, refl,
}
use event_time_mcdm_agent.Common.Exec.{Exec, bind, continue, pure}
use event_time_mcdm_agent.Float.{Float}
use event_time_mcdm_agent.Mempool.{Json}
use event_time_mcdm_agent.PerBlockLoop.{
  BlockState, Action, BlockReader, Ports, Loop, prepare, fetch_block_timestamp, read_one, gather,
  noted, switch, submit_private, move, execute, persist, complete, handle_block, run,
}

module _ {W : Type 0} (P : W → Type 0) where
  -- An action that keeps the property, also when it raises.
  abbrev pub IsKept : {A : Type 0} → Exec W A → Type 0
  IsKept m = (w : W) → P w → P (m w).1

  continue-IsKept :
      {A B : Type 0} (r : Result A) (k : A → Exec W B) (w : W)
      → P w
      → ((a : A) → IsKept (k a))
      → P (continue r k w).1
  continue-IsKept (ok a) k w p h = h a w p
  continue-IsKept (raised e) k w p h = p

  bind-IsKept :
      {A B : Type 0} (m : Exec W A) (k : A → Exec W B)
      → IsKept m
      → ((a : A) → IsKept (k a))
      → IsKept (bind m k)
  unfolding bind
  bind-IsKept m k h g w p = continue-IsKept (m w).0 k (m w).1 (h w p) g

-- The submissions, the last one first, and the world.
module _ {W : Type 0} (P : List String → W → Type 0) where
  -- A submission keeps the property, with its target noted if it returned.
  abbrev pub IsSubmitKept : String → Exec W Json → Type 0
  IsSubmitKept target m =
      (targets : List String) (w : W) → P targets w → P (noted target (m w).0 targets) (m w).1

module _ {F : Type 0} ⦃f : Float F⦄ {W : Type 0} (P : List String → W → Type 0) where
  abbrev pub AreReadersKept : List (BlockReader F W) → Type 0
  AreReadersKept = All (λ (r : BlockReader F W).
      (targets : List String) (n : ℕ) → IsKept (P targets) (r.read_at_block n))

  pub record IsKeptBy (ports : Ports F W) : Type 0 where
    pub readers_kept : AreReadersKept ports.readers
    pub gas_price_kept : (targets : List String) → IsKept (P targets) ports.gas_price
    pub get_block_kept : (targets : List String) (n : ℕ) → IsKept (P targets) (ports.get_block n)
    pub utcnow_kept : (targets : List String) (w : W) → P targets w → P targets (ports.utcnow w).1
    pub price_kept : (targets : List String) → IsKept (P targets) ports.eth_price_usd_provider
    pub decide_kept :
        (targets : List String) (state : BlockState F) → IsKept (P targets) (ports.decide state)
    pub count_kept : (targets : List String) (w : W) → P targets w → P targets (ports.count_block w)
    pub submit_kept :
        (target : String) (state : BlockState F)
        → IsSubmitKept P target (ports.submit_private_tx target state)
    pub record_kept :
        (targets : List String) (state : BlockState F) (action : Action) (current : Option String)
        (w : W)
        → P targets w
        → P targets (ports.record_decision state action current w)
    pub append_kept :
        (targets : List String) (state : BlockState F) (action : Action)
        → IsKept (P targets) (ports.append state action)

  module _ (ports : Ports F W) (kept : IsKeptBy ports) where
    gather-kept :
        (targets : List String) (n : ℕ) (readers : List (BlockReader F W))
        → AreReadersKept readers
        → (w : W) → P targets w
        → P targets (gather n readers w).1
    unfolding gather read_one
    gather-kept targets n [] h w p = p
    gather-kept targets n (r ∷ rest) (h, hs) w p =
        gather-kept targets n rest hs (r.read_at_block n w).1 (h targets n w p)

    stamp-kept :
        (targets : List String) (n : ℕ) (w : W)
        → P targets w
        → P targets (fetch_block_timestamp ports n w).1
    unfolding fetch_block_timestamp
    stamp-kept targets n w p =
        by_answer (ports.get_block n w) refl (kept.get_block_kept targets n w p)
      where
        by_answer :
            (c : Result ℕ × W)
            → ports.get_block n w ≡ c
            → P targets c.1
            → P targets (fetch_block_timestamp ports n w).1
        by_answer (ok t, w') e q = rw e q
        by_answer (raised x, w') e q = rw e (kept.utcnow_kept targets w' q)

    pub prepare-IsKept :
        (targets : List String) (current : Option String) (n : ℕ)
        → IsKept (P targets) (prepare ports current n)
    unfolding prepare
    prepare-IsKept targets current n w p =
        bind-IsKept (P targets) _ _ (λ t q. q)
          (λ raw. bind-IsKept (P targets) _ _ (kept.price_kept targets) (λ price.
            bind-IsKept (P targets) _ _ (λ t q. q)
              (λ checked.
                bind-IsKept (P targets) _ _ (kept.decide_kept targets _)
                  (λ action t q. kept.count_kept targets t q))))
          _
          (gather-kept targets n ports.readers kept.readers_kept _
            (stamp-kept targets n _ (kept.gas_price_kept targets w p)))

    submit_private-kept :
        (target : String) (state : BlockState F) (s : Loop W)
        → P s.submitted s.world
        → P
            (submit_private ports target state s).1.submitted
            (submit_private ports target state s).1.world
    unfolding submit_private
    submit_private-kept target state s p = kept.submit_kept target state s.submitted s.world p

    -- The steps of the loop keep it too.
    abbrev Holds : Loop W → Type 0
    Holds s = P s.submitted s.world

    abbrev Loops : {A : Type 0} → Exec (Loop W) A → Type 0
    Loops = IsKept Holds

    switch-kept :
        (state : BlockState F) (target : Option String) → Loops (switch ports state target)
    unfolding switch move
    switch-kept state none = λ s p. p
    switch-kept state (some target) =
        bind-IsKept Holds _ _ (submit_private-kept target state) (λ hash t q. q)

    pub execute-kept : (state : BlockState F) (action : Action) → Loops (execute ports state action)
    unfolding execute
    execute-kept state action = by_kind (action.kind == "switch")
      where
        by_kind :
            (b : Bool) → Loops (if b then switch ports state action.target_protocol else pure tt)
        by_kind true = switch-kept state action.target_protocol
        by_kind false = λ s p. p

    persist-kept : (state : BlockState F) (action : Action) → Loops (persist ports state action)
    unfolding persist
    persist-kept state action s p =
        kept.append_kept s.submitted state action _
          (kept.record_kept s.submitted state action s.current_protocol s.world p)

    handle_block-kept : (n : ℕ) → Loops (handle_block ports n)
    unfolding handle_block complete
    handle_block-kept n s =
        bind-IsKept Holds _ _ (λ t. prepare-IsKept t.submitted s.current_protocol n t.world)
          (λ decided.
            bind-IsKept Holds _ _ (execute-kept decided.0 decided.1)
              (λ x. bind-IsKept Holds _ _ (persist-kept decided.0 decided.1) (λ y t q. q)))
          s

    pub run-kept :
        (blocks : List ℕ) (s : Loop W)
        → P s.submitted s.world
        → P (run ports blocks s).submitted (run ports blocks s).world
    unfolding run
    run-kept [] s p = p
    run-kept (n ∷ rest) s p = run-kept rest (handle_block ports n s).1 (handle_block-kept n s p)
