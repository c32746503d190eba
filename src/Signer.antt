-- ===== src/Signer.antt =====
-- agent/signer.py: the EIP-712 signature over the parameters of a rebalance. The encoding and the
-- signatures are eth_account's, and stand as a parameter.
pub mod Tests
use event_time_mcdm_agent.Common.{
  ℕ, ℤ, ◌≡◌, refl, Option, none, some, String, Text, Bool, Result, ok, raised, ok_injective,
  >>=-eq-ok, subst, ◌>>=◌, if◌then◌else◌, ◌==◌, string_eq, arith,
}
use event_time_mcdm_agent.Float.{Float}
use event_time_mcdm_agent.Config.{Config, chain_id}

pub record RebalanceParams : Type 0 where
  pub target_adapter_index : ℤ
  pub max_loss_bps : ℤ
  pub timestamp : ℤ
  pub nonce : ℕ

-- `config.EIP712_DOMAIN`
pub record Domain : Type 0 where
  pub name : String
  pub version : String
  pub chain : ℕ
  pub verifying_contract : String

-- What eth_account does: `encode_typed_data` for RebalanceParams, `Account.sign_message`,
-- `Account.from_key(…).address`, and, for the contract's side, the recovery of the signer.
pub record EthAccount : Type 1 where
  pub Message : Type 0
  pub encode_typed_data : Domain → RebalanceParams → Result Message
  pub sign_message : Message → String → Result Text
  pub address_of : String → Result String
  pub recover_message : Message → Text → Option String

-- The documented behaviour of eth_account: a signature recovers to the address of its key.
pub record IsRecovering (eth : EthAccount) : Type 0 where
  pub recovers :
      (m : eth.Message) (key : String) (signature : Text) (address : String)
      → eth.sign_message m key ≡ ok signature
      → eth.address_of key ≡ ok address
      → eth.recover_message m signature ≡ some address

pub record Signed : Type 0 where
  pub signature : Text
  pub timestamp : ℤ
  pub params : RebalanceParams
  pub signer : String

-- `private_key or config.PRIVATE_KEY`
abbrev pub key_or : Option String → String → String
key_or none default = default
key_or (some k) default = if k == "" then default else k

-- The domain that is signed: the vault's address is put in if there is one, and is there already.
unfoldable pub domain : {F : Type 0} → Config F → Domain
domain config = record {
  name = "AIVault";
  version = "1";
  chain = chain_id;
  verifying_contract = config.vault_address;
}

module _ {F : Type 0} ⦃f : Float F⦄ (eth : EthAccount) where
  open eth use {Message, encode_typed_data, sign_message, address_of, recover_message}

  unfoldable pub sign_rebalance_params : Config F → ℤ → ℤ → ℕ → Option String → F → Result Signed
  sign_rebalance_params config target_adapter_index max_loss_bps nonce private_key now = do
    let pk = key_or private_key config.private_key
    let message : RebalanceParams = record {
      target_adapter_index = target_adapter_index;
      max_loss_bps = max_loss_bps;
      timestamp = f.truncate now;
      nonce = nonce;
    }
    signable ← encode_typed_data (domain config) message
    signature ← sign_message signable pk
    signer ← address_of pk
    ok (record {
      signature = signature;
      timestamp = f.truncate now;
      params = message;
      signer = signer;
    })

  -- What the contract can check of a signed request, and what was asked for.
  abbrev pub Verifies : Config F → ℤ → ℤ → ℕ → F → Signed → Type 0
  Verifies config target loss nonce now s =
      ((m : Message) × (encode_typed_data (domain config) s.params ≡ ok m)
        × (recover_message m s.signature ≡ some s.signer))
      × (s.params.target_adapter_index ≡ target)
      × (s.params.max_loss_bps ≡ loss)
      × (s.params.nonce ≡ nonce)
      × (s.params.timestamp ≡ f.truncate now)
      × (s.timestamp ≡ s.params.timestamp)

  -- If eth_account recovers the signer of what it signed, then what is returned verifies: the signed
  -- message is the EIP-712 encoding of the returned parameters in the vault's domain, the signature
  -- recovers to the returned signer, and the parameters are the requested ones with the time of the
  -- call.
  pub sign_rebalance_params-Verifies :
      (laws : IsRecovering eth) (config : Config F) (target loss : ℤ) (nonce : ℕ)
      (private_key : Option String) (now : F) (s : Signed)
      → sign_rebalance_params config target loss nonce private_key now ≡ ok s
      → Verifies config target loss nonce now s
  unfolding sign_rebalance_params
  sign_rebalance_params-Verifies laws config target loss nonce private_key now s h =
      let (m, em, h1) = >>=-eq-ok _ _ h in
      let (signature, es, h2) = >>=-eq-ok _ _ h1 in
      let (address, ea, h3) = >>=-eq-ok _ _ h2 in
      subst (Verifies config target loss nonce now) (ok_injective _ _ h3) (
        (m, em, laws.recovers m (key_or private_key config.private_key) signature address es ea),
        refl,
        refl,
        refl,
        refl,
        refl,
      )
