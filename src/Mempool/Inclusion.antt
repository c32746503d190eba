-- ===== src/Mempool/Inclusion.antt =====
-- Waiting for a receipt.
use event_time_mcdm_agent.Common.{
  ℕ, zero, suc, ◌+◌, ◌<◌, ◌≡◌, refl, ◌∙◌, ap, ◌↔◌, Option, none, some, Text, Result, ok, raised,
  Bool, true, false, leb, arith, if◌then◌else◌,
}
use event_time_mcdm_agent.Common.Exec.{bind, continue}
use event_time_mcdm_agent.Mempool.{
  RelayPorts, Poll, expired, waiting, after_receipt_poll, poll, settle, polls, wait_for_inclusion,
}

module _ {R W : Type 0} (ports : RelayPorts R W) (txhash : Text) (deadline : ℕ) where
  -- The node knows no receipt, or the call for it raised.
  abbrev pub HasNoReceipt : Result (Option R) → Type 0
  HasNoReceipt (ok (some receipt)) = ⊥
  HasNoReceipt (ok none) = Unit
  HasNoReceipt (raised e) = Unit

  -- Within so many tries from a world, one is answered with the receipt; after each try before it,
  -- which is not, the block number is read and is below the deadline, and the program sleeps.
  pub data Found : ℕ → W → R → Type 0 where
    now :
        (n : ℕ) (w w' : W) (receipt : R)
        → ports.transaction_receipt txhash w ≡ (ok (some receipt), w')
        → Found (suc n) w receipt
    later :
        (n : ℕ) (w w' w'' : W) (receipt : R) (answer : Result (Option R)) (current : ℕ)
        → ports.transaction_receipt txhash w ≡ (answer, w')
        → HasNoReceipt answer
        → ports.block_number w' ≡ (ok current, w'')
        → current < deadline
        → Found n (ports.sleep w'') receipt
        → Found (suc n) w receipt

  -- A round after the answer, with the rounds that are left.
  abbrev rest : ℕ → Result (Option R) → W → Result (Option R) × W
  rest n answer =
      bind (after_receipt_poll ports deadline answer) (settle ports (polls ports n txhash deadline))

  -- The same after a block number.
  abbrev aged : ℕ → Bool → W → Result (Option R) × W
  aged n late w =
      let c : Result (Poll ports) × W =
        if late then (ok expired, w) else (ok waiting, ports.sleep w) in
      continue c.0 (settle ports (polls ports n txhash deadline)) c.1

  abbrev IsSound : ℕ → Type 0
  IsSound n =
      (w : W) (receipt : R)
      → (polls ports n txhash deadline w).0 ≡ ok (some receipt)
      → Found n w receipt

  -- A round that goes on.
  waited :
      (n : ℕ) (w w' : W) (receipt : R) (answer : Result (Option R))
      → IsSound n
      → ports.transaction_receipt txhash w ≡ (answer, w')
      → HasNoReceipt answer
      → (rest n (ok none) w').0 ≡ ok (some receipt)
      → Found (suc n) w receipt
  unfolding bind after_receipt_poll settle
  waited n w w' receipt answer sound e empty h =
      by_block (ports.block_number w').0 (ports.block_number w').1 refl h
    where
      by_age :
          (current : ℕ) (w'' : W) (late : Bool)
          → leb deadline current ≡ late
          → ports.block_number w' ≡ (ok current, w'')
          → (aged n late w'').0 ≡ ok (some receipt)
          → Found (suc n) w receipt
      by_age current w'' true l b g = cc
      by_age current w'' false l b g =
          later n w w' w'' receipt answer current e empty b (ground arith)
            (sound (ports.sleep w'') receipt g)

      by_block :
          (r : Result ℕ) (w'' : W)
          → ports.block_number w' ≡ (r, w'')
          → (let c =
                continue r
                  (λ current v.
                    if leb deadline current then (ok expired, v) else (ok waiting, ports.sleep v))
                  w'' in
              (continue c.0 (settle ports (polls ports n txhash deadline)) c.1).0)
            ≡ ok (some receipt)
          → Found (suc n) w receipt
      by_block (ok current) w'' b g = by_age current w'' (leb deadline current) refl b g
      by_block (raised x) w'' b g = cc

  pub polls-Found : (n : ℕ) → IsSound n
  unfolding polls poll settle bind after_receipt_poll
  polls-Found zero w receipt h = cc
  polls-Found (suc n) w receipt h =
      received (polls-Found n) (ports.transaction_receipt txhash w).0
        (ports.transaction_receipt txhash w).1 refl h
    where
      received :
          IsSound n
          → (answer : Result (Option R)) (w' : W)
          → ports.transaction_receipt txhash w ≡ (answer, w')
          → (rest n answer w').0 ≡ ok (some receipt)
          → Found (suc n) w receipt
      received sound (ok (some r)) w' e g =
          let same : r ≡ receipt = cc in
          now n w w' receipt (e ∙ ap (λ (x : R). (ok (some x), w')) same)
      received sound (ok none) w' e g = waited n w w' receipt _ sound e tt g
      received sound (raised x) w' e g = waited n w w' receipt _ sound e tt g

  skipped :
      (n : ℕ) (w' w'' : W) (answer : Result (Option R)) (current : ℕ)
      → HasNoReceipt answer
      → ports.block_number w' ≡ (ok current, w'')
      → current < deadline
      → rest n answer w' ≡ polls ports n txhash deadline (ports.sleep w'')
  unfolding bind after_receipt_poll settle
  skipped n w' w'' (ok (some receipt)) current empty b below = absurd empty
  skipped n w' w'' (ok none) current empty b below = rw (b, early) refl
    where
      early : leb deadline current ≡ false
      early = ground arith
  skipped n w' w'' (raised x) current empty b below = rw (b, early) refl
    where
      early : leb deadline current ≡ false
      early = ground arith

  pub Found-polls :
      (n : ℕ) (w : W) (receipt : R)
      → Found n w receipt
      → (polls ports n txhash deadline w).0 ≡ ok (some receipt)
  unfolding polls poll settle bind after_receipt_poll
  Found-polls _ w receipt (now n _ w' _ e) = rw e refl
  Found-polls _ w receipt (later n _ w' w'' _ answer current e empty b below found) = rw e (
      ap (λ c. c.0) (skipped n w' w'' answer current empty b below)
      ∙ Found-polls n (ports.sleep w'') receipt found)

module _ {R W : Type 0} (ports : RelayPorts R W) where
  -- From the block at the start, waiting returns a receipt exactly if one of at most
  -- `max_block_offset` tries is answered with it, and after each try before that one, which was
  -- answered with none or raised, the block number could be read and was below the start plus
  -- `max_block_offset`.
  pub wait_for_inclusion-Found :
      (txhash : Text) (offset start : ℕ) (w w' : W) (receipt : R)
      → ports.block_number w ≡ (ok start, w')
      → ((wait_for_inclusion ports txhash offset w).0 ≡ ok (some receipt))
        ↔ Found ports txhash (start + offset) offset w' receipt
  unfolding wait_for_inclusion bind
  wait_for_inclusion-Found txhash offset start w w' receipt h = rw h (
    polls-Found ports txhash (start + offset) offset w' receipt,
    Found-polls ports txhash (start + offset) offset w' receipt,
  )
