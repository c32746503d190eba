-- ===== src/PerBlockLoop/Position.antt =====
-- The position that the loop believes in is the last one that it submitted.
use event_time_mcdm_agent.Common.{
  ℕ, ◌≡◌, refl, Option, none, some, List, [], ◌∷◌, String, Bool, true, false, Result, ok, raised,
  ◌⊎◌, inl, inr, if◌then◌else◌, ◌==◌, string_eq, arith, ok_injective, sym, ◌∙◌, Bool-cases,
}
use event_time_mcdm_agent.Common.Exec.{Exec, continue, pure, bind}
use event_time_mcdm_agent.Float.{Float}
use event_time_mcdm_agent.PerBlockLoop.{
  BlockState, Action, Ports, Loop, outside, prepare, switch, submit_private, move, execute, persist,
  handle_block, run, complete,
}

-- The position after some submissions, the last one first.
abbrev pub last_target : Option String → List String → Option String
last_target start [] = start
last_target start (target ∷ before) = some target

module _ {W : Type 0} where
  -- Nothing moved, or the position moved to a target that was submitted.
  abbrev pub Moves : Loop W → Loop W → Type 0
  Moves s s' =
      ((s'.current_protocol ≡ s.current_protocol) × (s'.submitted ≡ s.submitted))
      ⊎ ((target : String) × (s'.current_protocol ≡ some target)
          × (s'.submitted ≡ target ∷ s.submitted))

  -- Neither the position nor the submissions differ.
  abbrev Stays : Loop W → Loop W → Type 0
  Stays s s' = (s'.current_protocol ≡ s.current_protocol) × (s'.submitted ≡ s.submitted)

  Moves-Stays : (a b c : Loop W) → Moves a b → Stays b c → Moves a c
  Moves-Stays a b c (inl (x, y)) (p, q) = inl (p ∙ x, q ∙ y)
  Moves-Stays a b c (inr (t, x, y)) (p, q) = inr (t, p ∙ x, q ∙ y)

  -- What follows a step that raised does not happen.
  continue-Stays :
      {A B : Type 0} (r : Result A) (k : A → Exec (Loop W) B) (s : Loop W)
      → ((x : A) → Stays s (k x s).1)
      → Stays s (continue r k s).1
  continue-Stays (ok x) k s h = h x
  continue-Stays (raised e) k s h = (refl, refl)

  abbrev pub IsTracking : Option String → Loop W → Type 0
  IsTracking start s = s.current_protocol ≡ last_target start s.submitted

  tracks :
      (start : Option String) (s s' : Loop W)
      → Moves s s'
      → IsTracking start s
      → IsTracking start s'
  tracks start s s' (inl (same, none_new)) h = rw (same, none_new) h
  tracks start s s' (inr (target, moved, new)) h = rw (moved, new) refl

module _ {F : Type 0} ⦃f : Float F⦄ {W : Type 0} (ports : Ports F W) where
  switch-Moves :
      (state : BlockState F) (target : Option String) (s : Loop W)
      → Moves s (switch ports state target s).1
  unfolding switch submit_private move bind
  switch-Moves state none s = inl (refl, refl)
  switch-Moves state (some target) s = ground arith

  execute-Moves :
      (state : BlockState F) (action : Action) (s : Loop W)
      → Moves s (execute ports state action s).1
  unfolding execute
  execute-Moves state action s = elim (Bool-cases (action.kind == "switch")) [
    | inl e ↦ rw e (switch-Moves state action.target_protocol s)
    | inr e ↦ rw e (inl (refl, refl))
  ]

  persist-Stays :
      (state : BlockState F) (action : Action) (s : Loop W)
      → Stays s (bind (persist ports state action) (λ _. pure action) s).1
  unfolding bind persist
  persist-Stays state action s =
      continue-Stays (persist ports state action s).0 (λ _. pure action)
        (persist ports state action s).1 (λ x. (refl, refl))

  complete-Moves :
      (decided : BlockState F × Action) (s : Loop W) → Moves s (complete ports decided s).1
  unfolding complete bind
  complete-Moves (state, action) s =
      let (r, s') = execute ports state action s in
      let rest : Exec (Loop W) Action =
        continue r (λ _. bind (persist ports state action) (λ _. pure action)) in
      Moves-Stays s s' (rest s').1 (execute-Moves state action s) (
        continue-Stays r (λ _. bind (persist ports state action) (λ _. pure action)) s'
          (λ x. persist-Stays state action s'))

  decided-Moves :
      (r : Result (BlockState F × Action)) (s : Loop W) → Moves s (continue r (complete ports) s).1
  decided-Moves (ok decided) s = complete-Moves decided s
  decided-Moves (raised e) s = inl (refl, refl)

  handle_block-Moves :
      (block_number : ℕ) (s : Loop W) → Moves s (handle_block ports block_number s).1
  unfolding handle_block bind
  handle_block-Moves block_number s =
      decided-Moves (outside (prepare ports s.current_protocol block_number) s).0
        (outside (prepare ports s.current_protocol block_number) s).1

  -- Whatever the policy, the relay, the readers and the history do, exceptions included, after any
  -- number of blocks the current protocol is the target of the last submission that returned, or the
  -- one from before if none did.
  pub run-IsTracking :
      (start : Option String) (blocks : List ℕ) (s : Loop W)
      → IsTracking start s
      → IsTracking start (run ports blocks s)
  unfolding run
  run-IsTracking start [] s h = h
  run-IsTracking start (n ∷ rest) s h =
      run-IsTracking start rest (handle_block ports n s).1
        (tracks start s (handle_block ports n s).1 (handle_block-Moves n s) h)

  -- The position is what the action asks for: the target of a switch, or what it was.
  abbrev pub Follows : Action → Loop W → Loop W → Type 0
  Follows action s s' =
      (((action.kind == "switch") ≡ true)
        × (target : String) × (action.target_protocol ≡ some target)
        × (s'.current_protocol ≡ some target)
        × (s'.submitted ≡ target ∷ s.submitted))
      ⊎ (((action.kind == "switch") ≡ false) × Stays s s')

  -- The history took the action with the state of its block, last of all.
  abbrev pub IsRecorded : Action → Loop W → Type 0
  IsRecorded action s' =
      (state : BlockState F) × (w : W) × (ports.append state action w ≡ (ok tt, s'.world))

  switch-Follows :
      (state : BlockState F) (target : Option String) (s : Loop W)
      → (switch ports state target s).0 ≡ ok tt
      → (t : String) × (target ≡ some t)
        × ((switch ports state target s).1.current_protocol ≡ some t)
        × ((switch ports state target s).1.submitted ≡ t ∷ s.submitted)
  unfolding switch submit_private move bind
  switch-Follows state none s h = cc
  switch-Follows state (some target) s h = (target, refl, ground arith, ground arith)

  execute-Follows :
      (state : BlockState F) (action : Action) (s : Loop W)
      → (execute ports state action s).0 ≡ ok tt
      → Follows action s (execute ports state action s).1
  unfolding execute
  execute-Follows state action s = chosen (action.kind == "switch")
    where
      acts : Bool → Exec (Loop W) (Unit {0})
      acts b = if b then switch ports state action.target_protocol else pure tt

      chosen :
          (b : Bool)
          → (acts b s).0 ≡ ok tt
          → ((b ≡ true)
              × (target : String) × (action.target_protocol ≡ some target)
              × ((acts b s).1.current_protocol ≡ some target)
              × ((acts b s).1.submitted ≡ target ∷ s.submitted))
            ⊎ ((b ≡ false) × Stays s (acts b s).1)
      chosen true h =
          let (target, asked, moved, new) = switch-Follows state action.target_protocol s h in
          inl (refl, target, asked, moved, new)
      chosen false h = inr (refl, (refl, refl))

  Follows-Stays :
      (action : Action) (a b c : Loop W) → Follows action a b → Stays b c → Follows action a c
  Follows-Stays action a b c (inl (e, t, target, x, y)) (p, q) = inl (e, t, target, p ∙ x, q ∙ y)
  Follows-Stays action a b c (inr (e, (x, y))) (p, q) = inr (e, (p ∙ x, q ∙ y))

  persist-IsRecorded :
      (state : BlockState F) (action returned : Action) (s : Loop W)
      → (bind (persist ports state action) (λ _. pure action) s).0 ≡ ok returned
      → (action ≡ returned)
        × IsRecorded action (bind (persist ports state action) (λ _. pure action) s).1
  unfolding bind persist
  persist-IsRecorded state action returned s =
      appended (ports.append state action w).0 (ports.append state action w).1 refl
    where
      w : W
      w = ports.record_decision state action s.current_protocol s.world

      appended :
          (q : Result (Unit {0})) (w' : W)
          → ports.append state action w ≡ (q, w')
          → (continue q (λ _. pure action) (record s { world = w' })).0 ≡ ok returned
          → (action ≡ returned)
            × IsRecorded action (continue q (λ _. pure action) (record s { world = w' })).1
      appended (ok x) w' e h = (ok_injective _ _ h, (state, w, e))
      appended (raised x) w' e h = cc

  complete-Follows :
      (state : BlockState F) (action returned : Action) (s : Loop W)
      → (complete ports (state, action) s).0 ≡ ok returned
      → let s' = (complete ports (state, action) s).1 in
        (action ≡ returned) × Follows action s s' × IsRecorded action s'
  unfolding complete bind
  complete-Follows state action returned s =
      executed (execute ports state action s).0 (execute-Follows state action s)
    where
      next : Loop W
      next = (execute ports state action s).1

      rest : Exec (Loop W) Action
      rest = bind (persist ports state action) (λ _. pure action)

      executed :
          (r : Result (Unit {0}))
          → (r ≡ ok tt → Follows action s next)
          → (continue r (λ _. rest) next).0 ≡ ok returned
          → (action ≡ returned)
            × Follows action s (continue r (λ _. rest) next).1
            × IsRecorded action (continue r (λ _. rest) next).1
      executed (raised e) follows h = cc
      executed (ok x) follows h =
          let (same, recorded) = persist-IsRecorded state action returned next h in
          (
            same,
            Follows-Stays action s next (rest next).1 (follows refl)
                (persist-Stays state action next),
            recorded,
          )

  -- When a block returns an action, the loop did what it asks for: a switch was submitted to its
  -- target, which is now the current protocol, or else the position is what it was; and the history
  -- took the action.
  pub handle_block-Follows :
      (block_number : ℕ) (s : Loop W) (action : Action)
      → (handle_block ports block_number s).0 ≡ ok action
      → let s' = (handle_block ports block_number s).1 in Follows action s s' × IsRecorded action s'
  unfolding handle_block bind
  handle_block-Follows block_number s action =
      decided (prepare ports s.current_protocol block_number s.world).0
    where
      next : Loop W
      next = record s { world = (prepare ports s.current_protocol block_number s.world).1 }

      decided :
          (r : Result (BlockState F × Action))
          → (continue r (complete ports) next).0 ≡ ok action
          → Follows action s (continue r (complete ports) next).1
            × IsRecorded action (continue r (complete ports) next).1
      decided (raised e) h = cc
      decided (ok (state, chosen)) h =
          let (same, follows, recorded) = complete-Follows state chosen action next h in
          rw (sym same) (follows, recorded)
