-- ===== src/Main/Settles.antt =====
-- The retry loop of `run_check` reaches its end: a nonce that settles within the rounds that are left.
use event_time_mcdm_agent.Common.{
  ℕ, zero, suc, ◌≤◌, ◌<◌, ℤ, pos_part, none, Text, true, false, ◌≡◌, refl, ap, sym, subst, ◌⊎◌, inl,
  inr, arith, Result, ok, raised, external, String, nat_beq,
}
use event_time_mcdm_agent.Common.Exec.{Exec, bind, continue, catch}
use event_time_mcdm_agent.Float.{Float}
use event_time_mcdm_agent.Config.{Config}
use event_time_mcdm_agent.Signer.{EthAccount, Signed, sign_rebalance_params}
use event_time_mcdm_agent.Main.Backend.{Backend, Agent, Submission, Receipt, on_world}
use event_time_mcdm_agent.Main.Cycle.{
  Attempt, finished, again, Decided, mentions_nonce, sign, gas_limit_of, with_headroom, send,
  after_receipt, send_and_wait, on_send_error, attempt, resume, submit, act,
}

module _ {W : Type 0} (μ : W → ℕ) where
  -- A call that returns, and does not put off the time when the nonce settles.
  abbrev pub IsSteady : {A : Type 0} → Exec W A → Type 0
  IsSteady {A = A} m = (w : W) → (a : A) × (w' : W) × (m w ≡ (ok a, w')) × (μ w' ≤ μ w)

module _ {F W : Type 0} (μ : W → ℕ) where
  -- A chain on which `μ` rounds still fail with an error that names the nonce: then a transaction is
  -- mined. The estimate of the gas may fail; the vault's call, the account's count and the
  -- transaction can be had for a signed rebalance that is good.
  pub record IsSettling (Good : Signed → Type 0) (backend : Backend F W) : Type 0 where
    pub time_steady : (w : W) → μ (backend.time w).1 ≤ μ w
    pub call_steady : (signed : Signed) → Good signed → IsSteady μ (backend.rebalance_call signed)
    pub estimate_steady : (signed : Signed) (w : W) → μ (backend.estimate_gas signed w).1 ≤ μ w
    pub count_steady :
        (signed : Signed) → Good signed → IsSteady μ (backend.transaction_count signed.signer)
    pub build_steady :
        (submission : Submission)
        → Good submission.signed
        → IsSteady μ (backend.build_transaction submission)
    pub sign_steady : (tx : Text) (key : String) → IsSteady μ (backend.sign_transaction tx key)
    pub nonce_steady : IsSteady μ backend.rebalance_nonce
    pub mined :
        (raw : Text) (w : W)
        → μ w ≡ 0
        → (hash : Text) × (w' : W) × (receipt : Receipt) × (w'' : W) × (backend.send_raw_transaction
              raw w
            ≡ (ok hash, w'))
          × (backend.wait_for_receipt hash w' ≡ (ok receipt, w''))
          × (nat_beq receipt.status 1 ≡ true)
    pub refused :
        (raw : Text) (w : W) (k : ℕ)
        → μ w ≡ suc k
        → (text : Text) × (w' : W) × (backend.send_raw_transaction raw w
            ≡ (raised (external text), w'))
          × (mentions_nonce text ≡ true)
          × (μ w' ≤ k)

  -- An action of the agent that returns and puts nothing off.
  abbrev Steady : {A : Type 0} → Exec (Agent F W) A → Type 0
  Steady {A = A} m =
      (s : Agent F W) → (a : A) × (s' : Agent F W) × (m s ≡ (ok a, s')) × (μ s'.world ≤ μ s.world)

  on_world-Steady : {A : Type 0} (m : Exec W A) → IsSteady μ m → Steady (on_world m)
  on_world-Steady m steady s =
      let (a, w', e, le) = steady s.world in
      (a, record s { world = w' }, ap (λ r. (r.0, record s { world = r.1 })) e, le)

  bind-after :
      {A B : Type 0} (P : Result B × Agent F W → Type 0) (n : ℕ) (m : Exec (Agent F W) A)
      (k : A → Exec (Agent F W) B)
      → Steady m
      → ((a : A) (s : Agent F W) → μ s.world ≤ n → P (k a s))
      → (s : Agent F W) → μ s.world ≤ n
      → P (bind m k s)
  unfolding bind
  bind-after P n m k steady next s le =
      let (a, s', e, le') = steady s in
      subst (λ c. P (continue c.0 k c.1)) (sym e) (next a s' (omega (arith, le, le')))

  -- The same where more is known of what the first action returned.
  bind-known :
      {A B : Type 0} (P : Result B × Agent F W → Type 0) (n : ℕ) (m : Exec (Agent F W) A)
      (k : A → Exec (Agent F W) B) (Q : A → Type 0)
      → ((s : Agent F W)
          → (a : A) × (s' : Agent F W) × (m s ≡ (ok a, s')) × (μ s'.world ≤ μ s.world) × Q a)
      → ((a : A) → Q a → (s : Agent F W) → μ s.world ≤ n → P (k a s))
      → (s : Agent F W) → μ s.world ≤ n
      → P (bind m k s)
  unfolding bind
  bind-known P n m k Q steady next s le =
      let (a, s', e, le', q) = steady s in
      subst (λ c. P (continue c.0 k c.1)) (sym e) (next a q s' (omega (arith, le, le')))

  -- The transaction was mined, or it was refused for its nonce and less is left.
  abbrev Tried : ℕ → Result Attempt × Agent F W → Type 0
  Tried n c =
      (c.0 ≡ ok (finished true))
      ⊎ ((text : Text) × (c.0 ≡ raised (external text))
          × (mentions_nonce text ≡ true)
          × (μ c.1.world < n))

  abbrev Done : ℕ → Result Attempt × Agent F W → Type 0
  Done n c = (c.0 ≡ ok (finished true)) ⊎ ((m : ℕ) × (c.0 ≡ ok (again m)) × (μ c.1.world < n))

module _ {F : Type 0} ⦃f : Float F⦄ (config : Config F) (eth : EthAccount) where
  -- The signer has the key, and signs a good rebalance to this target, whatever the nonce and the
  -- time.
  abbrev pub CanSign : (Signed → Type 0) → ℤ → Type 0
  CanSign Good target =
      (nonce : ℕ) (now : F)
      → (signed : Signed) × (sign_rebalance_params eth config target config.max_loss_bps nonce none
            now
          ≡ ok signed)
        × Good signed

module _ {F : Type 0} ⦃f : Float F⦄ {W : Type 0} (config : Config F) (backend : Backend F W)
    (eth : EthAccount) (μ : W → ℕ) (Good : Signed → Type 0)
    (settling : IsSettling μ Good backend) where
  -- The end of an attempt.
  abbrev deliver : Submission → Text → ℕ → Exec (Agent F W) Attempt
  deliver submission raw current_nonce = bind (send config backend eth submission raw) (λ hash.
      bind (on_world (backend.wait_for_receipt hash))
        (after_receipt config backend eth current_nonce))

  deliver-Tried :
      (submission : Submission) (raw : Text) (current_nonce n : ℕ) (s : Agent F W)
      → μ s.world ≤ n
      → Tried {F = F} μ n (deliver submission raw current_nonce s)
  unfolding bind send after_receipt
  deliver-Tried submission raw current_nonce n s le = by_rank (μ s.world) refl
    where
      by_rank : (k : ℕ) → μ s.world ≡ k → Tried {F = F} μ n (deliver submission raw current_nonce s)
      by_rank zero e =
          let (hash, w', receipt, w'', sent, waited, success) = settling.mined raw s.world e in
          inl (rw (sent, waited, success) refl)
      by_rank (suc k) e =
          let (text, w', refusal, named, less) = settling.refused raw s.world k e in
          inr (text, rw refusal refl, named, rw refusal (omega (arith, le, less, e)))

  send_and_wait-Tried :
      (gas_price_wei current_nonce : ℕ) (signed : Signed) (gas_limit : ℤ) (n : ℕ)
      → Good signed
      → (s : Agent F W) → μ s.world ≤ n
      → Tried {F = F} μ n
          (send_and_wait config backend eth gas_price_wei current_nonce signed gas_limit s)
  unfolding send_and_wait
  send_and_wait-Tried gas_price_wei current_nonce signed gas_limit n good =
      bind-after μ (Tried μ n) n _ _ (on_world-Steady μ _ (settling.count_steady signed good))
        λ account_nonce.
          bind-after μ (Tried μ n) n _ _ (on_world-Steady μ _ (settling.build_steady _ good)) λ tx.
            bind-after μ (Tried μ n) n _ _
              (on_world-Steady μ _ (settling.sign_steady tx config.private_key))
              λ raw s le. deliver-Tried _ raw current_nonce n s le

  caught :
      (n : ℕ) (m : Exec (Agent F W) Attempt) (s : Agent F W)
      → Tried {F = F} μ n (m s)
      → Done {F = F} μ n (catch m (on_send_error config backend eth) s)
  unfolding catch on_send_error bind
  caught n m s (inl e) = inl (rw e refl)
  caught n m s (inr (text, e, named, less)) =
      let (new_nonce, w', read, le) = settling.nonce_steady (m s).1.world in
      inr (new_nonce, rw (e, named, read) refl, rw (e, named, read) (omega (arith, less, le)))

  gas_limit_of-Steady :
      (signed : Signed) → Steady {F = F} μ (gas_limit_of config backend eth signed)
  unfolding gas_limit_of catch bind
  gas_limit_of-Steady signed s =
      by_result (backend.estimate_gas signed s.world).0 (backend.estimate_gas signed s.world).1 refl
    where
      by_result :
          (r : Result ℕ) (w' : W)
          → backend.estimate_gas signed s.world ≡ (r, w')
          → (a : ℤ) × (s' : Agent F W) × (gas_limit_of config backend eth signed s ≡ (ok a, s'))
            × (μ s'.world ≤ μ s.world)
      by_result (ok g) w' e = (
        with_headroom f g,
        record s { world = w' },
        rw e refl,
        subst (λ p. μ p.1 ≤ μ s.world) e (settling.estimate_steady signed s.world),
      )
      by_result (raised x) w' e = (
        config.gas_limit_fallback,
        record s { world = w' },
        rw e refl,
        subst (λ p. μ p.1 ≤ μ s.world) e (settling.estimate_steady signed s.world),
      )

  module _ (target : ℤ) (can_sign : CanSign config eth Good target) where
    sign-Steady :
        (nonce : ℕ) (s : Agent F W)
        → (signed : Signed) × (s' : Agent F W) × (sign config backend eth target nonce s
            ≡ (ok signed, s'))
          × (μ s'.world ≤ μ s.world)
          × Good signed
    unfolding sign
    sign-Steady nonce s =
        let (now, w) = backend.time s.world in
        let (signed, e, good) = can_sign nonce now in
        (
          signed,
          record s { world = w },
          ap (λ r. (r, record s { world = w })) e,
          settling.time_steady s.world,
          good,
        )

    attempt-Done :
        (gas_price_wei current_nonce n : ℕ) (s : Agent F W)
        → μ s.world ≤ n
        → Done {F = F} μ n (attempt config backend eth target gas_price_wei current_nonce s)
    unfolding attempt
    attempt-Done gas_price_wei current_nonce n =
        bind-known μ (Done μ n) n _ _ Good (sign-Steady current_nonce) λ signed good.
          bind-after μ (Done μ n) n _ _ (on_world-Steady μ _ (settling.call_steady signed good))
            λ _. bind-after μ (Done μ n) n _ _ (gas_limit_of-Steady signed) λ gas_limit s le.
              caught n
                (send_and_wait config backend eth gas_price_wei current_nonce signed gas_limit) s
                (send_and_wait-Tried gas_price_wei current_nonce signed gas_limit n good s le)

    submit_settles :
        (left : ℕ) (gas_price_wei current_nonce : ℕ) (s : Agent F W)
        → μ s.world < left
        → (submit config backend eth left target gas_price_wei current_nonce s).0 ≡ ok true
    unfolding submit bind resume
    submit_settles zero gas_price_wei current_nonce s h = absurd (omega arith)
    submit_settles (suc left) gas_price_wei current_nonce s h =
        elim (attempt-Done gas_price_wei current_nonce (μ s.world) s (omega arith)) [
          | inl e ↦ rw e refl
          | inr (new_nonce, e, less) ↦ rw e (
              submit_settles left gas_price_wei new_nonce
                (attempt config backend eth target gas_price_wei current_nonce s).1
                (omega (arith, h, less)))
        ]

  -- A rebalance is advised in a live run. The signer can sign for its target. For what it then signs
  -- the vault's call can be made, the account's transactions are counted and the transaction is
  -- built, signing a transaction and reading the contract's nonce return, and the chain refuses the nonce in fewer rounds than NONCE_RETRY_LIMIT
  -- before it mines a transaction. Then the rest of the cycle returns True: it neither gives up nor
  -- raises.
  pub act_settles :
      (d : Decided F) (s : Agent F W)
      → CanSign config eth Good d.decision.target_index
      → d.decision.should_rebalance ≡ true
      → μ s.world < pos_part config.nonce_retry_limit
      → (act config backend eth false d s).0 ≡ ok true
  unfolding act
  act_settles d s can_sign advised h = rw advised (
      submit_settles d.decision.target_index can_sign (pos_part config.nonce_retry_limit)
        d.gas_price_wei d.nonce s h)
