-- ===== src/Main/Advice.antt =====
-- A cycle sends transactions only on the advice of `evaluate`, and few of them.
use event_time_mcdm_agent.Common.{
  ℕ, zero, suc, ◌*◌, pos, pos_part, ◌≡◌, ap, ◌∙◌, sym, refl, ◌⊎◌, inl, inr, subst, ok_injective,
  List, [], ◌∷◌, All, Bool, true, false, not, ok, arith, if◌then◌else◌,
}
use event_time_mcdm_agent.Common.Exec.{pure, bind-eq-ok}
use event_time_mcdm_agent.Float.{Float}
use event_time_mcdm_agent.Config.{Config}
use event_time_mcdm_agent.Protocols.{ProtocolData, ratio_int}
use event_time_mcdm_agent.DataReader.{Reader, read_all}
use event_time_mcdm_agent.Scoring.{ProtocolInput, ScoringDecision, evaluate}
use event_time_mcdm_agent.Signer.{EthAccount}
use event_time_mcdm_agent.Main.Backend.{Backend, Agent, Submission, on_world}
use event_time_mcdm_agent.Main.Cycle.{
  Decided, smooth_one, smooth_all, block_age, read_protocols, observe, submit, act, with_protocols,
  run_check, run_cycles, rebalance_cost_eth, as_action,
}
use event_time_mcdm_agent.Main.Emits.{
  Grows, Grows-refl, Grows-trans, Emits, bind-Emits, pure-Emits, lift-Emits, on_world-Emits,
  if-Emits, bind-Grows, if-Grows,
}
use event_time_mcdm_agent.Main.Sends.{IsFor, sent-smooth_all, submit-Emits}

-- A list that grew by submissions with one property grew by submissions with a weaker one.
All-map :
    (P Q : Submission → Type 0) (ts : List Submission)
    → ((t : Submission) → P t → Q t)
    → All P ts
    → All Q ts
All-map P Q [] h all = tt
All-map P Q (t ∷ ts) h (p, ps) = (h t p, All-map P Q ts h ps)

pub weaken :
    (P Q : Submission → Type 0) (n : ℕ) (old now : List Submission)
    → ((t : Submission) → P t → Q t)
    → Grows P n old now
    → Grows Q n old now
weaken P Q n old now h g = record {
  new = g.new;
  grown = g.grown;
  good = All-map P Q g.new h g.good;
  few = g.few;
}

module _ {F : Type 0} ⦃f : Float F⦄ {W : Type 0} where
  world-smooth_all :
      (config : Config F) (ps : List (ProtocolData F)) (s : Agent F W)
      → (smooth_all config ps s).1.world ≡ s.world
  unfolding smooth_all smooth_one
  world-smooth_all config [] s = refl
  world-smooth_all config (p ∷ ps) s = world-smooth_all config ps (smooth_one config p s).1

  module _ (config : Config F) (backend : Backend F W) (eth : EthAccount) where
    -- The decision of `evaluate` on what is observed from a state: the gas price, the snapshots as
    -- they are smoothed after it, and the active adapter that is read after that.
    pub record IsEvaluated (ps : List (ProtocolData F)) (s : Agent F W)
        (decision : ScoringDecision F) : Type 0 where
      pub gas_price : ℕ
      pub priced : (backend.gas_price s.world).0 ≡ ok gas_price
      pub index : ℕ
      pub located : (backend.active_adapter_index (backend.gas_price s.world).1).0 ≡ ok index
      pub decided :
          evaluate config
            (smooth_all config ps (on_world backend.gas_price s).1).0
            (pos index)
            (rebalance_cost_eth gas_price)
          ≡ ok decision

    -- What justifies a transaction: the decision of the cycle that starts in the state. The block was
    -- new enough, and `evaluate` advised to move to the target of the transaction on the smoothed
    -- snapshots, the gas price and the active adapter that this cycle read, each where it was read.
    pub record IsAdvised (readers : List (Reader F W)) (s : Agent F W) (t : Submission)
        : Type 0 where
      pub age : F
      pub aged : (block_age config backend eth s).0 ≡ ok age
      pub fresh : f.lt (ratio_int config.max_block_age_seconds 1) age ≡ false
      pub decision : ScoringDecision F
      pub evaluated :
          let dated = (block_age config backend eth s).1 in
          IsEvaluated
            (read_all readers dated.world).results
            (read_protocols config backend eth readers dated).1
            decision
      pub advised : decision.should_rebalance ≡ true
      pub target : t.signed.params.target_adapter_index ≡ decision.target_index

    observe-IsEvaluated :
        (ps : List (ProtocolData F)) (s : Agent F W) (d : Decided F)
        → (observe config backend eth ps s).0 ≡ ok d
        → IsEvaluated ps s d.decision
    unfolding observe
    observe-IsEvaluated ps s d h =
        let (gas, priced, h1) = bind-eq-ok _ _ s h in
        let (inputs, smoothed, h2) = bind-eq-ok _ _ _ h1 in
        let (index, located, h3) = bind-eq-ok _ _ _ h2 in
        let (nonce, _, h4) = bind-eq-ok _ _ _ h3 in
        let (decision, e, h5) = bind-eq-ok _ _ _ h4 in
        subst (λ (x : Decided F). IsEvaluated ps s x.decision) (ok_injective _ _ h5)
          record {
            gas_price = gas;
            priced = priced;
            index = index;
            located =
                ap (λ w. (backend.active_adapter_index w).0)
                  (sym (world-smooth_all config ps (on_world backend.gas_price s).1))
                ∙ located;
            decided =
                ap
                  (λ (x : List (ProtocolInput F)).
                    evaluate config x (pos index) (rebalance_cost_eth gas))
                  (ok_injective _ _ smoothed)
                ∙ e;
          }

    pub silent_smooth :
        (P : Submission → Type 0) (ps : List (ProtocolData F))
        → Emits P 0 (as_action (smooth_all {W = W} config ps))
    silent_smooth P ps s = rw (sent-smooth_all config ps s) (Grows-refl P 0 s.sent)

    silent_observe :
        (P : Submission → Type 0) (ps : List (ProtocolData F))
        → Emits P 0 (observe config backend eth ps)
    unfolding observe
    silent_observe P ps =
        bind-Emits P 0 0 0 _ _ (omega arith) (on_world-Emits P 0 backend.gas_price) λ s gas _.
          bind-Emits P 0 0 0 _ _ (omega arith) (silent_smooth P ps) λ s inputs _.
            bind-Emits P 0 0 0 _ _ (omega arith) (on_world-Emits P 0 backend.active_adapter_index)
              λ s index _.
                bind-Emits P 0 0 0 _ _ (omega arith) (on_world-Emits P 0 backend.rebalance_nonce)
                  λ s nonce _.
                    bind-Emits P 0 0 0 _ _ (omega arith)
                      (lift-Emits P 0 (evaluate config inputs (pos index) (rebalance_cost_eth gas)))
                      λ s decision _.
                        let decided : Decided F = record {
                          decision = decision;
                          nonce = nonce;
                          gas_price_wei = gas;
                        } in
                        pure-Emits P 0 decided

    -- The number of transactions that a cycle may send: none in a dry run.
    abbrev pub allowance : Bool → ℕ
    allowance dry_run = if dry_run then 0 else pos_part config.nonce_retry_limit

    -- What a decision that is advised allows.
    module _ (P : Submission → Type 0) (d : Decided F)
        (justified : d.decision.should_rebalance ≡ true
          → (t : Submission) → IsFor d.decision.target_index t
          → P t) where
      acting :
          (dry_run : Bool)
          → d.decision.should_rebalance ≡ true
          → Emits P (allowance dry_run) (
              if dry_run
              then pure false
              else submit config backend eth
                  (pos_part config.nonce_retry_limit)
                  d.decision.target_index
                  d.gas_price_wei
                  d.nonce)
      acting true advised s = Grows-refl P 0 s.sent
      acting false advised s =
          weaken (IsFor d.decision.target_index) P (pos_part config.nonce_retry_limit) s.sent _
            (justified advised)
            (submit-Emits config backend eth (pos_part config.nonce_retry_limit)
              d.decision.target_index d.gas_price_wei d.nonce s)

      act-Emits : (dry_run : Bool) → Emits P (allowance dry_run) (act config backend eth dry_run d)
      unfolding act
      act-Emits dry_run =
          if-Emits P (allowance dry_run) (not d.decision.should_rebalance) _ _
            (λ h. pure-Emits P (allowance dry_run) false) (λ h. acting dry_run (ground arith))

    block_age-Emits : (P : Submission → Type 0) → Emits P 0 (block_age config backend eth)
    unfolding block_age
    block_age-Emits P s = Grows-refl P 0 s.sent

    pub read-Emits :
        (P : Submission → Type 0) (readers : List (Reader F W))
        → Emits P 0 (read_protocols config backend eth readers)
    unfolding read_protocols
    read-Emits P readers s = Grows-refl P 0 s.sent

    read-IsEvaluated :
        (readers : List (Reader F W)) (s : Agent F W) (ps : List (ProtocolData F))
        (decision : ScoringDecision F)
        → (read_protocols config backend eth readers s).0 ≡ ok ps
        → IsEvaluated ps (read_protocols config backend eth readers s).1 decision
        → IsEvaluated
            (read_all readers s.world).results
            (read_protocols config backend eth readers s).1
            decision
    unfolding read_protocols
    read-IsEvaluated readers s ps decision e =
        subst (λ qs. IsEvaluated qs (read_protocols config backend eth readers s).1 decision)
          (sym (ok_injective _ _ e))

    with_protocols-Grows :
        (P : Submission → Type 0) (dry_run : Bool) (ps : List (ProtocolData F)) (s : Agent F W)
        → ((decision : ScoringDecision F)
            → IsEvaluated ps s decision
            → decision.should_rebalance ≡ true
            → (t : Submission) → IsFor decision.target_index t
            → P t)
        → Grows P (allowance dry_run) s.sent (with_protocols config backend eth dry_run ps s).1.sent
    unfolding with_protocols
    with_protocols-Grows P dry_run [] s h = Grows-refl P (allowance dry_run) s.sent
    with_protocols-Grows P dry_run (p ∷ ps) s h =
        let n = allowance dry_run in
        bind-Grows P 0 n n _ _ s (omega arith) (silent_observe P (p ∷ ps)) λ d e.
          act-Emits P d (h d.decision (observe-IsEvaluated (p ∷ ps) s d e)) dry_run
            (observe config backend eth (p ∷ ps) s).1

    -- A cycle hands at most NONCE_RETRY_LIMIT transactions to the chain, and none in a dry run. Each
    -- of them asks for the target of the decision to rebalance that `evaluate` gave in this cycle: on
    -- its own snapshots, smoothed, with the gas price and the active adapter that it read, and on a
    -- block that was not too old.
    pub run_check-Emits :
        (readers : List (Reader F W)) (dry_run : Bool) (s : Agent F W)
        → Grows
            (IsAdvised readers s)
            (allowance dry_run)
            s.sent
            (run_check config backend eth readers dry_run s).1.sent
    unfolding run_check
    run_check-Emits readers dry_run s =
        let P = IsAdvised readers s in
        let n = allowance dry_run in
        let dated = (block_age config backend eth s).1 in
        bind-Grows P 0 n n _ _ s (omega arith) (block_age-Emits P) λ age aged.
          if-Grows P n (f.lt (ratio_int config.max_block_age_seconds 1) age) _ _ dated
            (λ h. Grows-refl P n dated.sent)
            (λ fresh. bind-Grows P 0 n n _ _ dated (omega arith) (read-Emits P readers) λ ps e.
              with_protocols-Grows P dry_run ps _ λ decision evaluated advised t target. record {
                age = age;
                aged = aged;
                fresh = fresh;
                decision = decision;
                evaluated = read-IsEvaluated readers dated ps decision e evaluated;
                advised = advised;
                target = target;
              })

    -- The submission is advised in one of so many cycles, each in the state that the last one left.
    abbrev pub AdvisedIn : ℕ → List (Reader F W) → Bool → Agent F W → Submission → Type 0
    AdvisedIn zero readers dry_run s t = ⊥
    AdvisedIn (suc n) readers dry_run s t =
        IsAdvised readers s t
        ⊎ AdvisedIn n readers dry_run (run_check config backend eth readers dry_run s).1 t

    -- Over any number of cycles, failed ones included, the agent sends at most NONCE_RETRY_LIMIT
    -- transactions for each cycle, none in a dry run, and each of them as one of these cycles
    -- advised on what it had read itself.
    pub run_cycles-Emits :
        (n : ℕ) (readers : List (Reader F W)) (dry_run : Bool) (s : Agent F W)
        → Grows
            (AdvisedIn n readers dry_run s)
            (n * allowance dry_run)
            s.sent
            (run_cycles config backend eth n readers dry_run s).sent
    unfolding run_cycles
    run_cycles-Emits zero readers dry_run s = Grows-refl _ _ s.sent
    run_cycles-Emits (suc n) readers dry_run s =
        let P = AdvisedIn (suc n) readers dry_run s in
        let k = allowance dry_run in
        let s' = (run_check config backend eth readers dry_run s).1 in
        Grows-trans P k (n * k) (suc n * k) _ _ _ (omega arith)
          (weaken (IsAdvised readers s) P k _ _ (λ t h. inl h) (run_check-Emits readers dry_run s))
          (weaken (AdvisedIn n readers dry_run s') P (n * k) _ _ (λ t h. inr h)
            (run_cycles-Emits n readers dry_run s'))
