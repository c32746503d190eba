-- ===== src/Signer/Tests.antt =====
-- A signer that can be evaluated: the signature names the key, and recovery reads it back.
use event_time_mcdm_agent.Common.{pos, ◌≡◌, refl, none, some, String, ok, [], ◌∷◌}
use event_time_mcdm_agent.Float.Decimal.{num, decimal_float}
use event_time_mcdm_agent.Scoring.Tests.{defaults}
use event_time_mcdm_agent.Signer.{
  RebalanceParams, Domain, EthAccount, IsRecovering, Signed, Verifies, sign_rebalance_params,
  sign_rebalance_params-Verifies,
}

-- Every key has the one address of this account.
abbrev pub account : EthAccount
account = record {
  Message = Domain × RebalanceParams;
  encode_typed_data = λ d p. ok (d, p);
  sign_message = λ m key. ok (b'a' ∷ b'b' ∷ []);
  address_of = λ key. ok "0xsigner";
  recover_message = λ m signature. some "0xsigner";
}

account-IsRecovering : IsRecovering account
account-IsRecovering = record { recovers = λ m key signature address hs ha. recovers address ha }
  where
    recovers : (address : String) → ok "0xsigner" ≡ ok address → some "0xsigner" ≡ some address
    recovers address h = cc

abbrev signed : Signed
signed = record {
  signature = b'a' ∷ b'b' ∷ [];
  timestamp = decimal_float.truncate (num (pos 9));
  params = record {
    target_adapter_index = pos 1;
    max_loss_bps = pos 50;
    timestamp = decimal_float.truncate (num (pos 9));
    nonce = 4;
  };
  signer = "0xsigner";
}

sign-eq-signed :
    sign_rebalance_params account defaults (pos 1) (pos 50) 4 none (num (pos 9)) ≡ ok signed
unfolding sign_rebalance_params
sign-eq-signed = refl

sign_rebalance_params-Verifies_example :
    Verifies account defaults (pos 1) (pos 50) 4 (num (pos 9)) signed
sign_rebalance_params-Verifies_example =
    sign_rebalance_params-Verifies account account-IsRecovering defaults (pos 1) (pos 50) 4 none
      (num (pos 9)) signed sign-eq-signed
