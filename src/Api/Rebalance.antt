-- ===== src/Api/Rebalance.antt =====
-- What a request to /rebalance can send.
use event_time_mcdm_agent.Common.{
  ℕ, zero, suc, ℤ, pos, negsuc, ◌≡◌, ◌≢◌, refl, ap, ◌∙◌, sym, subst, ok_injective, Option, List, [],
  ◌∷◌, String, Bool, true, false, not, ok, http_exception, ◌⊎◌, inl, inr, arith, ◌==◌, string_eq,
  nat_beq, ◌&&◌, if◌then◌else◌,
}
use event_time_mcdm_agent.Common.Exec.{raise, catch, bind-eq-ok}
use event_time_mcdm_agent.Float.{Float}
use event_time_mcdm_agent.Config.{Config}
use event_time_mcdm_agent.Protocols.{ProtocolData}
use event_time_mcdm_agent.DataReader.{Reader, read_all}
use event_time_mcdm_agent.Scoring.{ScoringDecision, evaluate}
use event_time_mcdm_agent.Signer.{EthAccount, Signed}
use event_time_mcdm_agent.Main.Backend.{Backend, Agent, Submission}
use event_time_mcdm_agent.Main.Cycle.{rebalance_cost_eth, as_action, read_protocols}
use event_time_mcdm_agent.Main.Emits.{
  Grows, Grows-refl, Emits, bind-Emits, pure-Emits, lift-Emits, on_world-Emits, catch-Emits,
  if-Emits, bind-Grows,
}
use event_time_mcdm_agent.Main.Advice.{silent_smooth, read-Emits}
use event_time_mcdm_agent.Main.Sends.{sign-IsFor, silent_sign, send_one}
use event_time_mcdm_agent.Api.Agreement.{protocol_data-eq-smooth_all}
use event_time_mcdm_agent.Api.{
  Views, AdapterName, adapter_name, index_of_name, Detail, ScoreResult, score_result, get_w3,
  protocol_data, score_protocols, run_scoring, hold_result, other_adapter, dry_result, find_best,
  submission_for, send_signed, execute_rebalance, answer_score, trigger_rebalance,
}

-- The adapter that a rebalance is signed for: the one that scored best, if it is one of the two that
-- the API knows, and otherwise 0.
abbrev pub IsMapped : ℤ → ℤ → Type 0
IsMapped best target =
    (((best ≡ pos 0) ⊎ (best ≡ pos 1)) × (target ≡ best))
    ⊎ ((best ≢ pos 0) × (best ≢ pos 1) × (target ≡ pos 0))

index_of_name-IsMapped : (best : ℤ) → IsMapped best (index_of_name (adapter_name best))
unfolding index_of_name adapter_name
index_of_name-IsMapped (pos zero) = inl (inl refl, refl)
index_of_name-IsMapped (pos (suc zero)) = inl (inr refl, refl)
index_of_name-IsMapped (pos (suc (suc n))) = inr ((λ e. ground arith), (λ e. ground arith), refl)
index_of_name-IsMapped (negsuc n) = inr ((λ e. cc), (λ e. cc), refl)

module _ {F : Type 0} ⦃f : Float F⦄ {W : Type 0} (config : Config F) (backend : Backend F W)
    (views : Views W) (eth : EthAccount) where
  -- What justifies a transaction: the request's own scoring, from the state it found. It read the
  -- snapshots, and scored them to a decision to rebalance.
  pub record IsAsked (readers : List (Reader F W)) (s : Agent F W) (t : Submission) : Type 0 where
    pub decision : ScoringDecision F
    pub scored :
        let read = read_protocols config backend eth readers s in
        (score_protocols config backend views eth (read_all readers s.world).results read.1).0
        ≡ ok decision
    pub advised : decision.should_rebalance ≡ true
    pub target : IsMapped decision.target_index t.signed.params.target_adapter_index

  module _ (P : Submission → Type 0) where
    silent_get_w3 : Emits P {F = F} {W = W} 0 (get_w3 config)
    unfolding get_w3
    silent_get_w3 =
        if-Emits P 0 (config.rpc_url == "") _ _ (λ e s. Grows-refl P 0 s.sent)
          (λ e. pure-Emits P 0 tt)

    silent_data :
        (ps : List (ProtocolData F)) → Emits P 0 (as_action (protocol_data {W = W} config ps))
    silent_data ps s =
        rw (protocol_data-eq-smooth_all config ps s) (silent_smooth config backend eth P ps s)

    silent_score :
        (ps : List (ProtocolData F)) → Emits P 0 (score_protocols config backend views eth ps)
    unfolding score_protocols
    silent_score ps =
        bind-Emits P 0 0 0 _ _ (omega arith) (on_world-Emits P 0 backend.gas_price) λ s g _.
          bind-Emits P 0 0 0 _ _ (omega arith) (on_world-Emits P 0 backend.active_adapter_index)
            λ s i _.
              bind-Emits P 0 0 0 _ _ (omega arith) (silent_data ps)
                λ s inputs _. lift-Emits P 0 (evaluate config inputs (pos i) (rebalance_cost_eth g))

    silent_scoring :
        (readers : List (Reader F W)) → Emits P 0 (run_scoring config backend views eth readers)
    unfolding run_scoring
    silent_scoring readers = bind-Emits P 0 0 0 _ _ (omega arith) silent_get_w3 λ s _ _.
        bind-Emits P 0 0 0 _ _ (omega arith) (read-Emits config backend eth P readers) λ s ps _.
          bind-Emits P 0 0 0 _ _ (omega arith) (silent_score ps)
            λ s d _. pure-Emits P 0 (score_result config d)

    sent-hold_result :
        (parse_int : String → Option ℤ) (dry_run : Bool) (score : ScoreResult F) (s : Agent F W)
        → (hold_result config backend views eth parse_int dry_run score s).1.sent ≡ s.sent
    unfolding hold_result
    sent-hold_result parse_int dry_run score s = ground arith

    silent_hold :
        (parse_int : String → Option ℤ) (dry_run : Bool) (score : ScoreResult F)
        → Emits P 0 (hold_result config backend views eth parse_int dry_run score)
    silent_hold parse_int dry_run score s =
        rw (sent-hold_result parse_int dry_run score s) (Grows-refl P 0 s.sent)

    silent_dry : (score : ScoreResult F) → Emits P 0 (dry_result config backend views eth score)
    unfolding dry_result other_adapter
    silent_dry score =
        bind-Emits P 0 0 0 _ _ (omega arith)
          (bind-Emits P 0 0 0 _ _ (omega arith) (on_world-Emits P 0 backend.active_adapter_index)
            λ s i _.
              if-Emits P 0 (not (nat_beq 0 i)) _ _ (λ e. pure-Emits P 0 (pos 0))
                λ e.
                  bind-Emits P 0 0 0 _ _ (omega arith)
                    (on_world-Emits P 0 backend.active_adapter_index)
                    λ s j _. pure-Emits P 0 (if not (nat_beq 1 j) then pos 1 else pos 0))
          λ s target _ s'. Grows-refl P 0 s'.sent

    silent_find :
        (best : F) (ds : List (Detail F)) → Emits P 0 (find_best config backend views eth best ds)
    unfolding find_best
    silent_find best [] = λ s. Grows-refl P 0 s.sent
    silent_find best (d ∷ ds) =
        if-Emits P 0 (f.le d.total_score best && f.le best d.total_score) _ _
          (λ e. pure-Emits P 0 d.name) (λ e. silent_find best ds)

    send_signed-Emits :
        (best : AdapterName) (target : ℤ) (signed : Signed)
        → ((t : Submission) → t.signed ≡ signed → P t)
        → Emits P 1 (send_signed config backend views eth best target signed)
    unfolding send_signed
    send_signed-Emits best target signed p =
        bind-Emits P 0 1 1 _ _ (omega arith) (on_world-Emits P 0 (backend.rebalance_call signed))
          λ s _ _.
            bind-Emits P 0 1 1 _ _ (omega arith)
              (on_world-Emits P 0 (backend.transaction_count signed.signer))
              λ s count _.
                bind-Emits P 0 1 1 _ _ (omega arith) (on_world-Emits P 0 backend.gas_price)
                  λ s gas _.
                    bind-Emits P 0 1 1 _ _ (omega arith)
                      (on_world-Emits P 0 (
                        backend.build_transaction
                          (submission_for config backend views eth signed count gas)))
                      λ s tx _.
                        bind-Emits P 0 1 1 _ _ (omega arith)
                          (on_world-Emits P 0 (backend.sign_transaction tx config.private_key))
                          λ s raw _.
                            bind-Emits P 1 0 1 _ _ (omega arith)
                              (send_one config backend eth P _ raw (p _ refl))
                              λ s hash _.
                                bind-Emits P 0 0 0 _ _ (omega arith)
                                  (on_world-Emits P 0 (backend.wait_for_receipt hash))
                                  λ s receipt _ s'. Grows-refl P 0 s'.sent

    execute-Emits :
        (score : ScoreResult F)
        → ((t : Submission)
            → t.signed.params.target_adapter_index ≡ index_of_name score.best_adapter
            → P t)
        → Emits P 1 (execute_rebalance config backend views eth score)
    unfolding execute_rebalance
    execute-Emits score p =
        let target = index_of_name score.best_adapter in
        bind-Emits P 0 1 1 _ _ (omega arith) (on_world-Emits P 0 backend.rebalance_nonce)
          λ s nonce _.
            bind-Emits P 0 1 1 _ _ (omega arith) (on_world-Emits P 0 backend.active_adapter_index)
              λ s i _.
                bind-Emits P 0 1 1 _ _ (omega arith) (silent_find score.best_score score.details)
                  λ s name _.
                    bind-Emits P 0 1 1 _ _ (omega arith)
                      (silent_sign config backend eth P target nonce)
                      λ s signed e. send_signed-Emits score.best_adapter target signed λ t h. p t (
                        ap (λ (x : Signed). x.params.target_adapter_index) h
                        ∙ sign-IsFor config backend eth target nonce s signed e)

  -- The score that is answered is that of the decision of the request's own scoring.
  abbrev IsScored : List (Reader F W) → Agent F W → ScoreResult F → Type 0
  IsScored readers s score =
      (decision : ScoringDecision F) × ((score_protocols config backend views eth
          (read_all readers s.world).results (read_protocols config backend eth readers s).1).0
        ≡ ok decision)
      × (score_result config decision ≡ score)

  read-IsScored :
      (readers : List (Reader F W)) (s : Agent F W) (ps : List (ProtocolData F))
      (decision : ScoringDecision F)
      → (read_protocols config backend eth readers s).0 ≡ ok ps
      → (score_protocols config backend views eth ps
          (read_protocols config backend eth readers s).1).0
        ≡ ok decision
      → (score_protocols config backend views eth
          (read_all readers s.world).results
          (read_protocols config backend eth readers s).1).0
        ≡ ok decision
  unfolding read_protocols
  read-IsScored readers s ps decision e =
      subst
        (λ qs.
          (score_protocols config backend views eth qs
            (read_protocols config backend eth readers s).1).0
          ≡ ok decision)
        (sym (ok_injective _ _ e))

  state-get_w3 : (s : Agent F W) → (get_w3 config s).1 ≡ s
  unfolding get_w3
  state-get_w3 s = ground arith

  run_scoring-IsScored :
      (readers : List (Reader F W)) (s : Agent F W) (score : ScoreResult F)
      → (run_scoring config backend views eth readers s).0 ≡ ok score
      → IsScored readers s score
  unfolding run_scoring
  run_scoring-IsScored readers s score h =
      let (_, e0, h0) = bind-eq-ok _ _ _ h in
      let (ps, e1, h1) = bind-eq-ok _ _ _ h0 in
      let (decision, e2, h2) = bind-eq-ok _ _ _ h1 in
      subst (λ s'. IsScored readers s' score) (state-get_w3 s)
        (decision, read-IsScored readers _ ps decision e1 e2, ok_injective _ _ h2)

  -- One transaction for a live request, and none for a dry run.
  abbrev pub request_allowance : Bool → ℕ
  request_allowance dry_run = if dry_run then 0 else 1

  module _ (readers : List (Reader F W)) (start : Agent F W) where
    acting :
        (dry_run : Bool) (score : ScoreResult F)
        → IsScored readers start score
        → score.should_rebalance ≡ true
        → Emits (IsAsked readers start) (request_allowance dry_run) (
            if dry_run
            then dry_result config backend views eth score
            else catch
                (execute_rebalance config backend views eth score)
                (λ e. raise (http_exception 500)))
    unfolding score_result
    acting true score scored advised = silent_dry (IsAsked readers start) score
    acting false score (decision, e, same) advised =
        let P = IsAsked readers start in
        catch-Emits P 1 0 1 _ _ (omega arith)
          (execute-Emits P score λ t h. record {
            decision = decision;
            scored = e;
            advised = ap (λ (x : ScoreResult F). x.should_rebalance) same ∙ advised;
            target =
                subst (IsMapped decision.target_index)
                  (ap (λ (x : ScoreResult F). index_of_name x.best_adapter) same ∙ sym h)
                  (index_of_name-IsMapped decision.target_index);
          })
          (λ e s. Grows-refl P 0 s.sent)

    answer_score-Emits :
        (parse_int : String → Option ℤ) (dry_run : Bool) (score : ScoreResult F)
        → IsScored readers start score
        → Emits
            (IsAsked readers start)
            (request_allowance dry_run)
            (answer_score config backend views eth parse_int dry_run score)
    unfolding answer_score
    answer_score-Emits parse_int dry_run score scored =
        let P = IsAsked readers start in
        if-Emits P (request_allowance dry_run) (not score.should_rebalance) _ _
          (λ h s. rw (sent-hold_result P parse_int dry_run score s) (Grows-refl P _ s.sent))
          (λ h. acting dry_run score scored (ground arith))

  -- A request to /rebalance hands at most one transaction to the chain, and none in a dry run. Its
  -- own scoring, on the snapshots that it read, decided to rebalance, and the transaction asks for
  -- the adapter that scored best if that is 0 or 1, and for adapter 0 if it is another one.
  pub trigger_rebalance-Emits :
      (parse_int : String → Option ℤ) (readers : List (Reader F W)) (dry_run : Bool) (s : Agent F W)
      → Grows
          (IsAsked readers s)
          (request_allowance dry_run)
          s.sent
          (trigger_rebalance config backend views eth parse_int readers dry_run s).1.sent
  unfolding trigger_rebalance
  trigger_rebalance-Emits parse_int readers dry_run s =
      let P = IsAsked readers s in
      let n = request_allowance dry_run in
      bind-Grows P 0 n n _ _ s (omega arith) (silent_scoring P readers) λ score e.
        answer_score-Emits readers s parse_int dry_run score
          (run_scoring-IsScored readers s score e)
          (run_scoring config backend views eth readers s).1
