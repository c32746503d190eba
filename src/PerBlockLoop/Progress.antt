-- ===== src/PerBlockLoop/Progress.antt =====
-- What a block needs to return its action: nothing of the readers, nor of the call for its timestamp.
use event_time_mcdm_agent.Common.{
  ℕ, ◌≡◌, refl, List, Option, some, String, Bool, true, false, ok, if◌then◌else◌, ◌==◌, string_eq,
}
use event_time_mcdm_agent.Common.Exec.{Exec, bind, pure}
use event_time_mcdm_agent.Float.{Float}
use event_time_mcdm_agent.Protocols.{ProtocolData}
use event_time_mcdm_agent.PerBlockLoop.{
  BlockState, Action, Ports, Loop, prepare, switch, submit_private, move, execute, persist,
  complete, handle_block, assemble,
}
use event_time_mcdm_agent.PerBlockLoop.Position.{Follows, IsRecorded, handle_block-Follows}

module _ {W : Type 0} where
  -- An action that returns what satisfies a predicate.
  abbrev pub Returns : {A : Type 0} → (A → Type 0) → Exec W A → W → Type 0
  Returns {A} Q m w = (a : A) × ((m w).0 ≡ ok a) × Q a

  -- An action that never raises.
  abbrev pub IsTotal : {A : Type 0} → Exec W A → Type 0
  IsTotal {A} m = (w : W) → (a : A) × ((m w).0 ≡ ok a)

  bind-Returns :
      {A B : Type 0} (P : A → Type 0) (Q : B → Type 0) (m : Exec W A) (k : A → Exec W B) (w : W)
      → Returns P m w
      → ((a : A) → P a → Returns Q (k a) (m w).1)
      → Returns Q (bind m k) w
  unfolding bind
  bind-Returns P Q m k w (a, e, p) h = rw e (h a p)

  any : {A : Type 0} (m : Exec W A) → IsTotal m → (w : W) → Returns (λ a. Unit {0}) m w
  any m total w = let (a, e) = total w in (a, e, tt)

-- A switch names its target.
abbrev pub IsComplete : Action → Type 0
IsComplete action =
    ((action.kind == "switch") ≡ true) → (target : String) × (action.target_protocol ≡ some target)

module _ {F : Type 0} ⦃f : Float F⦄ {W : Type 0} where
  -- The gas price, the oracle, the relay and the store answer, the states that the loop puts together
  -- are accepted, and the policy returns complete actions.
  pub record IsResponsive (ports : Ports F W) : Type 0 where
    pub gas_answers : IsTotal ports.gas_price
    pub price_answers : IsTotal ports.eth_price_usd_provider
    pub accepts :
        (current : Option String) (block_number stamp : ℕ) (gas price : F)
        (snapshots : List (String × ProtocolData F))
        → ports.new_state (assemble ports current block_number stamp gas price snapshots) ≡ ok tt
    pub decides : (state : BlockState F) (w : W) → Returns IsComplete (ports.decide state) w
    pub submits :
        (target : String) (state : BlockState F) → IsTotal (ports.submit_private_tx target state)
    pub appends : (state : BlockState F) (action : Action) → IsTotal (ports.append state action)

  module _ (ports : Ports F W) (responsive : IsResponsive ports) where
    abbrev IsReady : BlockState F × Action → Type 0
    IsReady decided = IsComplete decided.1

    prepare-Returns :
        (current : Option String) (n : ℕ) (w : W) → Returns IsReady (prepare ports current n) w
    unfolding prepare
    prepare-Returns current n w =
        bind-Returns (λ raw. Unit {0}) IsReady _ _ _
          (let (gas, e) = responsive.gas_answers w in (gas, e, tt))
          (λ raw given.
            bind-Returns (λ price. Unit {0}) IsReady _ _ _
              (any ports.eth_price_usd_provider responsive.price_answers _)
              (λ price given.
                bind-Returns (λ checked. Unit {0}) IsReady _ _ _
                  (tt, responsive.accepts current n _ _ price _, tt)
                  (λ checked given.
                    bind-Returns IsComplete IsReady _ _ _ (responsive.decides _ _)
                      (λ action complete. ((_, action), refl, complete)))))

    switch_returns :
        (state : BlockState F) (target : String) (s : Loop W)
        → (switch ports state (some target) s).0 ≡ ok tt
    unfolding switch submit_private move bind
    switch_returns state target s = rw (responsive.submits target state s.world).1 refl

    execute_returns :
        (state : BlockState F) (action : Action) (s : Loop W)
        → IsComplete action
        → (execute ports state action s).0 ≡ ok tt
    unfolding execute
    execute_returns state action s = by_kind (action.kind == "switch")
      where
        by_kind :
            (b : Bool)
            → (b ≡ true → (target : String) × (action.target_protocol ≡ some target))
            → ((if b then switch ports state action.target_protocol else pure tt) s).0 ≡ ok tt
        by_kind true named = let (target, e) = named refl in rw e (switch_returns state target s)
        by_kind false named = refl

    persist-Returns :
        (state : BlockState F) (action : Action) (s : Loop W)
        → Returns (λ y. Unit {0}) (persist ports state action) s
    unfolding persist
    persist-Returns state action s =
        let (x, e) =
          responsive.appends state action
            (ports.record_decision state action s.current_protocol s.world) in
        (x, e, tt)

    complete-Returns :
        (state : BlockState F) (action : Action) (s : Loop W)
        → IsComplete action
        → Returns (λ returned. returned ≡ action) (complete ports (state, action)) s
    unfolding complete
    complete-Returns state action s named =
        bind-Returns (λ x. Unit {0}) (λ returned. returned ≡ action) _ _ s
          (tt, execute_returns state action s named, tt)
          (λ x given.
            bind-Returns (λ y. Unit {0}) (λ returned. returned ≡ action) _ _ _
              (persist-Returns state action (execute ports state action s).1)
              (λ y given. (action, refl, refl)))

    handle_block-Returns :
        (n : ℕ) (s : Loop W) → Returns (λ action. Unit {0}) (handle_block ports n) s
    unfolding handle_block
    handle_block-Returns n s =
        bind-Returns IsReady (λ action. Unit {0}) _ _ s
          (prepare-Returns s.current_protocol n s.world)
          (λ decided named.
            let (action, e, same) = complete-Returns decided.0 decided.1 _ named in (action, e, tt))

    -- If the gas price, the oracle, the relay and the store answer, the states that the loop puts
    -- together are accepted, and the policy returns a complete action on every state, then every
    -- block returns an action that is carried out and recorded, whatever the readers and the call for
    -- the timestamp do.
    pub handle_block_returns :
        (n : ℕ) (s : Loop W)
        → (action : Action) × ((handle_block ports n s).0 ≡ ok action)
          × Follows ports action s (handle_block ports n s).1
          × IsRecorded ports action (handle_block ports n s).1
    handle_block_returns n s =
        let (action, e, given) = handle_block-Returns n s in
        let (follows, recorded) = handle_block-Follows ports n s action e in
        (action, e, follows, recorded)
