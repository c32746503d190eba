-- ===== src/Mempool.antt =====
-- agent/mempool.py: the client of the private relay. web3, eth_account, the hashes and the encoding of
-- JSON are parameters; a number of an answer is an int.
pub mod Submit
pub mod Inclusion
pub mod Tests
use event_time_mcdm_agent.Common.{
  ℕ, zero, suc, ◌+◌, ◌*◌, ◌^◌, ℤ, pos, negsuc, Option, none, some, List, [], ◌∷◌, String, Text,
  Bool, true, false, not, ◌&&◌, ◌||◌, Result, ok, raised, Exn, value_error, runtime_error,
  if◌then◌else◌, ◌==◌, string_eq, leb, nat_beq,
}
use event_time_mcdm_agent.Common.Exec.{Exec, pure, raise, lift, ◌>>=◌, ◌>>◌}
use event_time_mcdm_agent.Float.{Float}

-- The value that `resp.json()` gives.
mutual
  pub data Json : Type 0 where
    null : Json
    boolean : Bool → Json
    integer : ℤ → Json
    text : Text → Json
    array : Items → Json
    object : Members → Json

  pub data Items : Type 0 where
    no_items : Items
    item : Json → Items → Items

  pub data Members : Type 0 where
    no_members : Members
    member : String → Json → Members → Members

abbrev pub is_zero : ℤ → Bool
is_zero (pos n) = nat_beq n 0
is_zero (negsuc n) = false

-- Python's `bool(value)`.
unfoldable pub truthy : Json → Bool
truthy null = false
truthy (boolean b) = b
truthy (integer n) = not (is_zero n)
truthy (text []) = false
truthy (text (c ∷ cs)) = true
truthy (array no_items) = false
truthy (array (item v vs)) = true
truthy (object no_members) = false
truthy (object (member k v m)) = true

-- payload.get(key), where a missing key is None.
unfoldable pub get : String → Members → Json
get key no_members = null
get key (member k v rest) = let later = get key rest in if k == key then v else later

-- raw.lstrip("0x"): every leading character that is one of the two.
unfoldable pub lstrip_0x : Text → Text
lstrip_0x [] = []
lstrip_0x (c ∷ cs) =
    let rest = lstrip_0x cs in if nat_beq c b'0' || nat_beq c b'x' then rest else c ∷ cs

-- `if not sig_hex.startswith("0x"): sig_hex = "0x" + sig_hex`
unfoldable pub with_0x : Text → Text
with_0x (c ∷ d ∷ cs) =
    if nat_beq c b'0' && nat_beq d b'x' then c ∷ d ∷ cs else b'0' ∷ b'x' ∷ c ∷ d ∷ cs
with_0x cs = b'0' ∷ b'x' ∷ cs

pub record FlashbotsMempool : Type 0 where
  pub auth_key : String
  pub wallet_key : String
  pub auth_address : String
  pub wallet_address : String
  pub vault_addr : String
  pub dry_run : Bool
  pub max_block_offset : ℕ

-- The fields of `_build_rebalance_tx` that vary.
pub record RebalanceTx : Type 0 where
  pub to : String
  pub gas_price : ℤ
  pub nonce : ℕ

-- The two fields of the envelope that vary.
pub record Envelope : Type 0 where
  pub tx : Text
  pub max_block_number : ℕ

-- What is posted: X-Flashbots-Signature in its two halves, and the body.
pub record Post : Type 0 where
  pub header_address : String
  pub header_signature : Text
  pub body : Text

-- `sign_body` signs the keccak digest of a body by a key, as text.
pub record RelayPorts (R W : Type 0) : Type 0 where
  pub address_of : String → Result String
  pub block_number : Exec W ℕ
  pub transaction_count : String → Exec W ℕ
  pub sign_transaction : RebalanceTx → String → Result Text
  pub dumps : Envelope → Text
  pub sign_body : Text → String → Result Text
  pub sha256_hex : Text → Text
  pub post : Post → Exec W Json
  pub transaction_receipt : Text → Exec W (Option R)
  pub sleep : W → W

-- The world, and, for the theorems only, what was posted, the last one first.
pub record Net (W : Type 0) : Type 0 where
  pub world : W
  pub posted : List Post

module _ {W A : Type 0} where
  abbrev put_world : Net W → Result A × W → Result A × Net W
  put_world s (r, w) = (r, record s { world = w })

  abbrev pub on_net : Exec W A → Exec (Net W) A
  on_net m s = put_world s (m s.world)

-- How the relay's answer is taken.
unfoldable pub parse_answer : Json → Result Json
parse_answer (object answer) =
    if truthy (get "error" answer)
    then raised runtime_error
    else if truthy (get "result" answer)
    then ok (get "result" answer)
    else raised runtime_error
parse_answer _ = raised runtime_error

module _ {R W : Type 0} (ports : RelayPorts R W) where
  -- `FlashbotsMempool.__init__`
  unfoldable pub new_mempool :
      (auth_key wallet_key vault_addr : String) → Bool → ℕ → Result FlashbotsMempool
  new_mempool auth_key wallet_key vault_addr dry_run offset =
      checked (ports.address_of auth_key) (ports.address_of wallet_key)
    where
      checked : Result String → Result String → Result FlashbotsMempool
      checked (raised e) wallet = raised e
      checked (ok auth) (raised e) = raised e
      checked (ok auth) (ok wallet) =
          if auth == wallet
          then raised value_error
          else ok (record {
            auth_key = auth_key;
            wallet_key = wallet_key;
            auth_address = auth;
            wallet_address = wallet;
            vault_addr = vault_addr;
            dry_run = dry_run;
            max_block_offset = offset;
          })

  unfoldable pub hand_over : Post → Exec (Net W) Json
  hand_over post s = on_net (ports.post post) (record s { posted = post ∷ s.posted })

  -- `_mock_txhash`
  abbrev pub mock_txhash : Text → Text
  mock_txhash body = b'0' ∷ b'x' ∷ ports.sha256_hex body

  -- Steps 5 and 6: the mock hash of a dry run, or the answer of the relay.
  unfoldable pub deliver : Bool → Post → Exec (Net W) Json
  deliver true post = pure (text (mock_txhash post.body))
  deliver false post = do payload ← hand_over post; lift (parse_answer payload)

  module _ {F : Type 0} ⦃f : Float F⦄ (client : FlashbotsMempool) where
    -- int(state.gas_price_gwei * 1e9)
    unfoldable pub build_rebalance_tx : F → ℕ → RebalanceTx
    build_rebalance_tx gas_price_gwei nonce = record {
      to = client.vault_addr;
      gas_price = f.truncate (f.mul gas_price_gwei (f.ratio (10 ^ 9) 1));
      nonce = nonce;
    }

    -- Steps 1 to 4.
    unfoldable pub build_post : F → Exec W Post
    build_post gas_price_gwei = do
      nonce ← ports.transaction_count client.wallet_address
      raw ←
          lift (ports.sign_transaction (build_rebalance_tx gas_price_gwei nonce) client.wallet_key)
      current_block ← ports.block_number
      let body = ports.dumps (record {
        tx = b'0' ∷ b'x' ∷ lstrip_0x raw;
        max_block_number = current_block + client.max_block_offset;
      })
      signature ← lift (ports.sign_body body client.auth_key)
      pure (record {
        header_address = client.auth_address;
        header_signature = with_0x signature;
        body = body;
      })

    -- `FlashbotsMempool.submit_private_tx`, for a state with the given gas price.
    unfoldable pub submit_private_tx : F → Exec (Net W) Json
    submit_private_tx gas_price_gwei = do
      post ← on_net (build_post gas_price_gwei)
      deliver client.dry_run post

  -- What one poll leads to.
  pub data Poll : Type 0 where
    included : R → Poll
    expired : Poll
    waiting : Poll

  unfoldable pub after_receipt_poll : ℕ → Result (Option R) → Exec W Poll
  after_receipt_poll deadline (ok (some receipt)) = pure (included receipt)
  after_receipt_poll deadline _ = do
    current ← ports.block_number
    λ w. if leb deadline current then (ok expired, w) else (ok waiting, ports.sleep w)

  -- The body of the polling loop; an exception of the receipt call counts as no receipt.
  unfoldable pub poll : Text → ℕ → Exec W Poll
  poll txhash deadline w =
      let (receipt, w') = ports.transaction_receipt txhash w in
      after_receipt_poll deadline receipt w'

  -- The end of a round: return, or the next poll.
  unfoldable pub settle : Exec W (Option R) → Poll → Exec W (Option R)
  settle next (included receipt) = pure (some receipt)
  settle next expired = pure none
  settle next waiting = next

  -- `for _ in range(max_block_offset)`, on the polls left.
  unfoldable pub polls : ℕ → Text → ℕ → Exec W (Option R)
  polls zero txhash deadline = pure none
  polls (suc left) txhash deadline = do
    outcome ← poll txhash deadline
    settle (polls left txhash deadline) outcome

  -- `FlashbotsMempool.wait_for_inclusion`
  unfoldable pub wait_for_inclusion : Text → ℕ → Exec W (Option R)
  wait_for_inclusion txhash max_block_offset = do
    start_block ← ports.block_number
    polls max_block_offset txhash (start_block + max_block_offset)
