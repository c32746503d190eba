-- ===== src/PerBlockLoop/Heads.antt =====
-- A session handles every head that has a number, whatever raises in a block.
use event_time_mcdm_agent.Common.{ℕ, List, [], ◌∷◌, map, Result, ok, raised, ◌≡◌, refl, ap, ◌∙◌}
use event_time_mcdm_agent.Common.Exec.{bind, continue, recover, catch, pure}
use event_time_mcdm_agent.Float.{Float}
use event_time_mcdm_agent.PerBlockLoop.{Action, Ports, Loop, handle_block, run}
use event_time_mcdm_agent.PerBlockLoop.Session.{
  Session, on_new_head, handle_subscriptions, run_session,
}

module _ {F : Type 0} ⦃f : Float F⦄ {W : Type 0} (ports : Ports F W) where
  -- An exception of a block ends its own block only.
  on_new_head-eq-ok :
      (n : ℕ) (s : Loop W) → on_new_head ports (ok n) s ≡ (ok tt, (handle_block ports n s).1)
  unfolding on_new_head bind catch
  on_new_head-eq-ok n s = by_result (handle_block ports n s).0 (handle_block ports n s).1
    where
      by_result :
          (r : Result Action) (s' : Loop W)
          → recover {A = Unit {0}}
              (continue r (λ action. pure tt) s').0
              (λ e. pure tt)
              (continue r (λ action. pure tt) s').1
            ≡ (ok tt, s')
      by_result (ok action) s' = refl
      by_result (raised e) s' = refl

  handle_subscriptions-eq-run :
      (blocks : List ℕ) (s : Loop W)
      → handle_subscriptions ports (map ok blocks) s ≡ (ok tt, run ports blocks s)
  unfolding handle_subscriptions run bind
  handle_subscriptions-eq-run [] s = refl
  handle_subscriptions-eq-run (n ∷ rest) s =
      ap
        (λ (t : Result (Unit {0}) × Loop W).
          continue t.0 (λ x. handle_subscriptions ports (map ok rest)) t.1)
        (on_new_head-eq-ok n s)
      ∙ handle_subscriptions-eq-run rest (handle_block ports n s).1

  -- If the connection and the subscription succeed and every head has a number, the session comes
  -- to its end, whatever the blocks raise, and what it leaves is what the handler makes of the
  -- blocks in their order, with the connection closed.
  pub run_session-eq-run :
      (session : Session W) (blocks : List ℕ) (s : Loop W) (w w' : W)
      → session.connect s.world ≡ (ok tt, w)
      → session.subscribe w ≡ (ok tt, w')
      → let s' = run ports blocks (record s { world = w' }) in
        run_session ports session (map ok blocks) s
        ≡ (ok tt, record s' { world = session.close s'.world })
  unfolding run_session bind
  run_session-eq-run session blocks s w w' connects subscribes =
      rw (connects, subscribes)
        (ap
          (λ (t : Result (Unit {0}) × Loop W).
            (t.0, record t.1 { world = session.close t.1.world }))
          (handle_subscriptions-eq-run blocks (record s { world = w' })))
