-- ===== src/Main/Guards.antt =====
-- What a cycle does when it stops early, and what the moving average and the retries promise.
use event_time_mcdm_agent.Common.{
  ℕ, ◌≡◌, some, List, Bool, true, false, ok, raised, Exn, external, arith, nat_beq, if◌then◌else◌,
  Text, int_eq,
}
use event_time_mcdm_agent.Common.Exec.{bind}
use event_time_mcdm_agent.Float.{Float, ◌≼◌, IsFinite, zero_f, one_f}
use event_time_mcdm_agent.Float.Laws.{IsIeee}
use event_time_mcdm_agent.Config.{Config}
use event_time_mcdm_agent.Protocols.{ratio_int}
use event_time_mcdm_agent.DataReader.{Reader, block_age_seconds}
use event_time_mcdm_agent.Signer.{EthAccount}
use event_time_mcdm_agent.Main.Backend.{Backend, Agent, Receipt}
use event_time_mcdm_agent.Main.Cycle.{
  ema_smooth, block_age, run_check, on_send_error, after_receipt, finished, again, mentions_nonce,
}

module _ {F W : Type 0} ⦃f : Float F⦄ (config : Config F) (backend : Backend F W)
    (eth : EthAccount) where
  -- If the latest block cannot be read, the cycle returns False at once, for every finite limit on
  -- the age: rates, TVL history and transactions are untouched, and nothing but that one call has
  -- been made.
  pub run_check_unreadable :
      (laws : IsIeee F) (readers : List (Reader F W)) (dry_run : Bool) (s : Agent F W) (e : Exn)
      (w : W)
      → IsFinite (ratio_int {F = F} config.max_block_age_seconds 1)
      → backend.latest_timestamp s.world ≡ (raised e, w)
      → run_check config backend eth readers dry_run s ≡ (ok false, record s { world = w })
  unfolding run_check block_age block_age_seconds bind
  run_check_unreadable laws readers dry_run s e w fin h =
      ground (arith, laws.inf_above (ratio_int config.max_block_age_seconds 1) fin)

  -- An error at sending is retried only if its text names a nonce, and then with the nonce that the
  -- contract now has; any other error ends the cycle with False.
  pub on_send_error_retries :
      (e : Text) (s : Agent F W) (n : ℕ) (w : W)
      → backend.rebalance_nonce s.world ≡ (ok n, w)
      → (on_send_error config backend eth (external e) s).0
        ≡ ok (if mentions_nonce e then again n else finished false)
  unfolding on_send_error bind
  on_send_error_retries e s n w h = ground arith

  -- A receipt of status 1 ends the cycle with True; a revert is retried exactly when the contract's
  -- nonce has moved, with the new nonce.
  pub after_receipt_cases :
      (nonce : ℕ) (receipt : Receipt) (s : Agent F W) (n : ℕ) (w : W)
      → backend.rebalance_nonce s.world ≡ (ok n, w)
      → (after_receipt config backend eth nonce receipt s).0
        ≡ ok (
            if nat_beq receipt.status 1
            then finished true
            else if nat_beq n nonce
            then finished false
            else again n)
  unfolding after_receipt bind
  after_receipt_cases nonce receipt s n w h = ground arith

module _ {F : Type 0} ⦃f : Float F⦄ where
  -- With a weight between 0 and 1, the moving average is monotone in the new and in the old rate.
  pub ema_smooth_mono :
      (laws : IsIeee F) (x y u v alpha : F)
      → IsFinite x
      → IsFinite y
      → IsFinite u
      → IsFinite v
      → IsFinite alpha
      → zero_f ≼ alpha
      → alpha ≼ one_f
      → zero_f ≼ x
      → x ≼ y
      → zero_f ≼ u
      → u ≼ v
      → IsFinite (f.mul (f.sub one_f alpha) u)
      → IsFinite (f.mul (f.sub one_f alpha) v)
      → ema_smooth x (some u) alpha ≼ ema_smooth y (some v) alpha
  unfolding ema_smooth
  ema_smooth_mono laws x y u v alpha fx fy fu fv fa la ua lx h lu k p q =
      laws.add_le _ _ _ _
        (laws.mul_le alpha alpha x y la (laws.finite_number alpha fa) lx h
          (laws.mul_number alpha x fa fx) (laws.mul_number alpha y fa fy))
        (laws.mul_le _ _ u v nonneg (laws.le_number _ _ nonneg).1 lu k (laws.finite_number _ p)
          (laws.finite_number _ q))
        (laws.add_number _ _ (laws.mul_number alpha x fa fx) p)
        (laws.add_number _ _ (laws.mul_number alpha y fa fy) q)
    where
      rest_self : zero_f ≼ f.sub alpha alpha
      rest_self = rw (laws.sub_self alpha fa) (laws.le_number zero_f alpha la).0

      nonneg : zero_f ≼ f.sub one_f alpha
      nonneg = laws.le_trans _ _ _ rest_self (
          laws.sub_le alpha one_f alpha alpha ua (laws.finite_number alpha fa)
            (laws.sub_number alpha alpha (laws.finite_number alpha fa) fa)
            (laws.sub_number one_f alpha (laws.le_number alpha one_f ua).1 fa))
