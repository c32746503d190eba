-- ===== src/Api/Agreement.antt =====
-- The endpoint /score and the agent's own cycle decide alike.
use event_time_mcdm_agent.Common.{ℕ, pos, ◌≡◌, refl, List, [], ◌∷◌, Result, ok, raised}
use event_time_mcdm_agent.Common.Exec.{bind, continue, pure}
use event_time_mcdm_agent.Float.{Float}
use event_time_mcdm_agent.Config.{Config}
use event_time_mcdm_agent.Protocols.{ProtocolData}
use event_time_mcdm_agent.Scoring.{ScoringDecision, evaluate}
use event_time_mcdm_agent.Signer.{EthAccount}
use event_time_mcdm_agent.Main.Backend.{Backend, Agent}
use event_time_mcdm_agent.Main.Cycle.{Decided, smooth_one, smooth_all, observe, rebalance_cost_eth}
use event_time_mcdm_agent.Api.{Views, score_input_of, protocol_data, score_protocols}

module _ {F : Type 0} where
  -- The decision of a cycle without the nonce and the gas price beside it.
  abbrev pub decision_of : Result (Decided F) → Result (ScoringDecision F)
  decision_of (ok d) = ok d.decision
  decision_of (raised e) = raised e

  concluded :
      {W : Type 0} (r : Result (ScoringDecision F)) (t : Agent F W) (nonce gas_price : ℕ)
      → let decided : Result (Decided F) × Agent F W =
          continue r
            (λ d. pure (record { decision = d; nonce = nonce; gas_price_wei = gas_price }))
            t in
        (decision_of decided.0 ≡ r) × (decided.1 ≡ t)
  concluded (ok d) t nonce gas_price = (refl, refl)
  concluded (raised e) t nonce gas_price = (refl, refl)

module _ {F : Type 0} ⦃f : Float F⦄ {W : Type 0} where
  -- The loop of the API and the loop of the agent do the same.
  pub protocol_data-eq-smooth_all :
      (config : Config F) (ps : List (ProtocolData F)) (s : Agent F W)
      → protocol_data config ps s ≡ smooth_all config ps s
  unfolding protocol_data score_input_of smooth_all smooth_one
  protocol_data-eq-smooth_all config [] s = refl
  protocol_data-eq-smooth_all config (p ∷ ps) s =
      rw (protocol_data-eq-smooth_all config ps (smooth_one config p s).1) refl

  -- The readers gave at least one snapshot. As long as the gas price, the active adapter and the nonce are read without an error and stay
  -- what they are, scoring by the API gives the decision or the exception of the agent's cycle on
  -- the same snapshots, and leaves the same smoothed rates, TVL history and world.
  pub score_protocols-eq-observe :
      (config : Config F) (backend : Backend F W) (views : Views W) (eth : EthAccount)
      (first : ProtocolData F) (others : List (ProtocolData F)) (s : Agent F W)
      (gas_price index nonce : ℕ)
      → ((w : W) → backend.gas_price w ≡ (ok gas_price, w))
      → ((w : W) → backend.active_adapter_index w ≡ (ok index, w))
      → ((w : W) → backend.rebalance_nonce w ≡ (ok nonce, w))
      → let protocols = first ∷ others in
        let observed = observe config backend eth protocols s in
        let scored = score_protocols config backend views eth protocols s in
        (decision_of observed.0 ≡ scored.0) × (observed.1 ≡ scored.1)
  unfolding score_protocols observe bind
  score_protocols-eq-observe config backend views eth first others s g i n hg hi hn =
      let protocols = first ∷ others in
      let t = (smooth_all config protocols s).1 in
      let inputs = (smooth_all config protocols s).0 in
      rw (hg s.world) (
        rw (hi s.world) (
          rw (protocol_data-eq-smooth_all config protocols s) (
            rw (hi t.world) (
              rw (hn t.world)
                (concluded (evaluate config inputs (pos i) (rebalance_cost_eth g)) t n g)))))
