-- ===== src/Mempool/Tests.antt =====
-- A relay that takes every post, on a chain whose world is its block: the receipt comes at block 9.
use event_time_mcdm_agent.Common.{
  ℕ, pos, ◌+◌, ◌≡◌, ◌↔◌, refl, some, [], ◌∷◌, false, ok, raised, external, leb, if◌then◌else◌,
}
use event_time_mcdm_agent.Float.Decimal.{num, decimal_float}
use event_time_mcdm_agent.Mempool.{
  text, object, member, no_members, FlashbotsMempool, RelayPorts, Net, submit_private_tx,
  wait_for_inclusion,
}
use event_time_mcdm_agent.Mempool.Submit.{Posts, submit_private_tx-Posts}
use event_time_mcdm_agent.Mempool.Inclusion.{Found, wait_for_inclusion-Found}

-- An address is its key.
abbrev pub ports : RelayPorts ℕ ℕ
ports = record {
  address_of = λ key. ok key;
  block_number = λ w. (ok w, w);
  transaction_count = λ a w. (ok 3, w);
  sign_transaction = λ tx key. ok (b'f' ∷ b'8' ∷ []);
  dumps = λ envelope. envelope.tx;
  sign_body = λ body key. ok (b'a' ∷ b'b' ∷ []);
  sha256_hex = λ body. body;
  post = λ post w. (ok (object (member "result" (text (b'h' ∷ [])) no_members)), w);
  transaction_receipt = λ txhash w. if leb 9 w then (ok (some 1), w) else (raised (external []), w);
  sleep = λ w. w + 1;
}

abbrev pub live : FlashbotsMempool
live = record {
  auth_key = "auth";
  wallet_key = "wallet";
  auth_address = "auth";
  wallet_address = "wallet";
  vault_addr = "vault";
  dry_run = false;
  max_block_offset = 25;
}

abbrev pub quiet : Net ℕ
quiet = record { world = 7; posted = [] }

submit_private_tx-Posts_example :
    Posts ports live quiet (submit_private_tx ports live (num (pos 5)) quiet).1
submit_private_tx-Posts_example = submit_private_tx-Posts ports live (num (pos 5)) quiet

wait_for_inclusion-Found_example :
    ((wait_for_inclusion ports [] 25 7).0 ≡ ok (some 1)) ↔ Found ports [] 32 25 7 1
wait_for_inclusion-Found_example = wait_for_inclusion-Found ports [] 25 7 7 7 1 refl
