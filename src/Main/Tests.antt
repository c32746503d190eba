-- ===== src/Main/Tests.antt =====
-- A chain that can be evaluated, and the theorems at it. Its world is the nonce that the contract
-- has: a transaction that is sent moves it on.
use event_time_mcdm_agent.Common.{
  ℕ, zero, suc, arith, external, Result, ◌+◌, ◌*◌, ◌^◌, ℤ, pos, ◌≡◌, refl, List, [], ◌∷◌, true,
  false, Text, ok, raised, runtime_error, int_eq,
}
use event_time_mcdm_agent.Float.Decimal.{Decimal, num, decimal_float}
use event_time_mcdm_agent.Protocols.{ProtocolData}
use event_time_mcdm_agent.DataReader.{Reader, aave_v3, compound_v3}
use event_time_mcdm_agent.Scoring.Tests.{defaults, cents}
use event_time_mcdm_agent.Signer.Tests.{account}
use event_time_mcdm_agent.Main.Backend.{Backend, Agent}
use event_time_mcdm_agent.Main.Cycle.{run_check, run_cycles, mentions_nonce, Decided, act}
use event_time_mcdm_agent.Signer.{Signed, sign_rebalance_params}
use event_time_mcdm_agent.Main.Settles.{IsSettling, CanSign, act_settles}
use event_time_mcdm_agent.Main.Emits.{Grows}
use event_time_mcdm_agent.Main.Startup.{Args, Node, exited, is_configured, main}
use event_time_mcdm_agent.Main.Entry.{IsGuarded, IsJustified, main-IsGuarded}
use event_time_mcdm_agent.Main.Advice.{IsAdvised, AdvisedIn, run_check-Emits, run_cycles-Emits}

abbrev pub chain : Backend Decimal ℕ
chain = record {
  latest_timestamp = λ w. (ok 1000, w);
  time = λ w. (num (pos (1010 * 10 ^ 30)), w);
  gas_price = λ w. (ok (10 ^ 9), w);
  active_adapter_index = λ w. (ok 0, w);
  rebalance_nonce = λ w. (ok w, w);
  rebalance_call = λ s w. (ok tt, w);
  estimate_gas = λ s w. (ok 200000, w);
  transaction_count = λ a w. (ok 5, w);
  build_transaction = λ t w. (ok [], w);
  sign_transaction = λ t key w. (ok [], w);
  send_raw_transaction = λ raw w. (ok [], w + 1);
  wait_for_receipt = λ hash w. (ok (record { status = 1; block_number = 9 }), w);
}

-- The same chain while its node is down.
abbrev down : Backend Decimal ℕ
down = record chain { latest_timestamp = λ w. (raised runtime_error, w) }

abbrev pub market : ℤ → ℕ → ProtocolData Decimal
market i rate = record {
  name = "market";
  adapter_index = i;
  apy = cents rate;
  utilization = cents 60;
  tvl = num (pos (10 ^ 36));
  raw_rate_1e18 = pos 0;
}

abbrev pub readers : List (Reader Decimal ℕ)
readers =
    record { name = "Aave V3"; class = aave_v3; read = λ w. (ok (market (pos 0) 4), w) }
    ∷ record { name = "Compound V3"; class = compound_v3; read = λ w. (ok (market (pos 1) 9), w) }
    ∷ []

abbrev pub start : Agent Decimal ℕ
start = record { smoothed_rates = []; prev_tvl = []; world = 4; sent = [] }

-- "nonce too low"
abbrev too_low : Text
too_low =
    b'N' ∷ b'o' ∷ b'n' ∷ b'c' ∷ b'e' ∷ b' ' ∷ b't' ∷ b'o' ∷ b'o' ∷ b' ' ∷ b'l' ∷ b'o' ∷ b'w' ∷ []

too_low-mentions_nonce : mentions_nonce too_low ≡ true
unfolding mentions_nonce
too_low-mentions_nonce = refl

run_check-Emits_example :
    Grows
      (IsAdvised defaults chain account readers start)
      3
      []
      (run_check defaults chain account readers false start).1.sent
run_check-Emits_example = run_check-Emits defaults chain account readers false start

run_cycles-Emits_example :
    Grows
      (AdvisedIn defaults chain account 2 readers false start)
      6
      []
      (run_cycles defaults chain account 2 readers false start).sent
run_cycles-Emits_example = run_cycles-Emits defaults chain account 2 readers false start

-- A chain that refuses as many transactions as its world says.
abbrev refuse : ℕ → Result Text × ℕ
refuse zero = (ok [], zero)
refuse (suc k) = (raised (external too_low), k)

abbrev stubborn : Backend Decimal ℕ
stubborn = record chain { send_raw_transaction = λ raw w. refuse w }

-- A rebalance to adapter 1 under a signature in hexadecimal.
abbrev IsGood : Signed → Type 0
IsGood signed = (signed.params.target_adapter_index ≡ pos 1) × (signed.signature ≡ b'a' ∷ b'b' ∷ [])

stubborn-IsSettling : IsSettling (λ w. w) IsGood stubborn
stubborn-IsSettling = record {
  time_steady = λ w. omega arith;
  estimate_steady = λ signed w. omega arith;
  call_steady = λ signed good w. (tt, w, refl, omega arith);
  count_steady = λ signed good w. (5, w, refl, omega arith);
  build_steady = λ submission good w. ([], w, refl, omega arith);
  sign_steady = λ tx key w. ([], w, refl, omega arith);
  nonce_steady = λ w. (w, w, refl, omega arith);
  mined = λ raw w e. ([], 0, record { status = 1; block_number = 9 }, 0, rw e refl, refl, refl);
  refused = λ raw w k e. (too_low, k, rw e refl, too_low-mentions_nonce, omega arith);
}

abbrev advised : Decided Decimal
advised = record {
  decision = record {
    should_rebalance = true;
    target_index = pos 1;
    target_score = cents 60;
    current_index = pos 0;
    current_score = cents 40;
    score_delta = cents 20;
    scores = [];
  };
  nonce = 4;
  gas_price_wei = 10 ^ 9;
}

abbrev twice_refused : Agent Decimal ℕ
twice_refused = record { smoothed_rates = []; prev_tvl = []; world = 2; sent = [] }

account-CanSign : CanSign defaults account IsGood (pos 1)
unfolding sign_rebalance_params
account-CanSign nonce now = (_, refl, (refl, refl))

act_settles_example : (act defaults stubborn account false advised twice_refused).0 ≡ ok true
act_settles_example =
    act_settles defaults stubborn account (λ w. w) IsGood stubborn-IsSettling advised twice_refused
      account-CanSign refl (omega arith)

abbrev node : Node ℕ
node = record {
  is_connected = λ w. (true, w);
  chain_id = λ w. (ok 11155111, w);
  block_number = λ w. (ok 9, w);
}

abbrev one_check : Args
one_check = record { once = true; dry_run = false }

main-IsGuarded_example :
    IsGuarded defaults chain account node
      (ok readers)
      (IsJustified defaults chain account node (ok readers) one_check 0 start)
      one_check
      0
      start
      (main defaults chain account node (ok readers) one_check 0 start)
    × (is_configured defaults ≡ false
        → main defaults chain account node (ok readers) one_check 0 start ≡ (exited 1, start))
main-IsGuarded_example = main-IsGuarded defaults chain account node (ok readers) one_check 0 start

defaults_configured : is_configured defaults ≡ true
unfolding is_configured
defaults_configured = refl
