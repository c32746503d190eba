-- ===== src/PerBlockLoop/Session.antt =====
-- agent/per_block_loop.py: `PerBlockLoop.run`, the subscription to the heads of the chain. The
-- web-socket session is web3's: its calls are parameters, and the heads that it hands to the handler
-- are a list. The objects of the loop are those that it has once `self.w3` is the session's.
use event_time_mcdm_agent.Common.{ℕ, List, [], ◌∷◌, Result}
use event_time_mcdm_agent.Common.Exec.{Exec, pure, lift, catch, ◌>>=◌, ◌>>◌}
use event_time_mcdm_agent.Float.{Float}
use event_time_mcdm_agent.PerBlockLoop.{Ports, Loop, outside, handle_block}

-- Entering `async with AsyncWeb3(...)`, leaving it, and `subscribe`.
pub record Session (W : Type 0) : Type 0 where
  pub connect : Exec W (Unit {0})
  pub subscribe : Exec W (Unit {0})
  pub close : W → W

module _ {F : Type 0} ⦃f : Float F⦄ {W : Type 0} (ports : Ports F W) where
  -- `_on_new_head`, for a head with its number, or what `int(...)` raises on it. The number is read
  -- outside of the `try`.
  unfoldable pub on_new_head : Result ℕ → Exec (Loop W) (Unit {0})
  on_new_head head = do
    block_number ← lift head
    catch (do action ← handle_block ports block_number; pure tt) (λ e. pure tt)

  -- `handle_subscriptions`: an exception of the handler ends it.
  unfoldable pub handle_subscriptions : List (Result ℕ) → Exec (Loop W) (Unit {0})
  handle_subscriptions [] = pure tt
  handle_subscriptions (head ∷ rest) = do on_new_head head; handle_subscriptions rest

  module _ (session : Session W) where
    -- The session is left however its body ends.
    abbrev pub closing : Exec (Loop W) (Unit {0}) → Exec (Loop W) (Unit {0})
    closing body s = let (r, s') = body s in (r, record s' { world = session.close s'.world })

    -- `PerBlockLoop.run`
    unfoldable pub run_session : List (Result ℕ) → Exec (Loop W) (Unit {0})
    run_session heads = do
      outside session.connect
      closing (do outside session.subscribe; handle_subscriptions heads)
