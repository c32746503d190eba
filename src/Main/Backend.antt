-- ===== src/Main/Backend.antt =====
-- What the agent calls on web3, the state that it keeps, and the calls lifted to that state.
use event_time_mcdm_agent.Common.{ℕ, ℤ, List, String, Text, Result}
use event_time_mcdm_agent.Common.Dict.{Dict}
use event_time_mcdm_agent.Common.Exec.{Exec}
use event_time_mcdm_agent.DataReader.{TvlHistory}
use event_time_mcdm_agent.Signer.{Signed}

-- The transaction of a rebalance, as it is built, signed and sent.
pub record Submission : Type 0 where
  pub signed : Signed
  pub account_nonce : ℕ
  pub gas : ℤ
  pub max_fee_per_gas : ℕ
  pub max_priority_fee_per_gas : ℕ

pub record Receipt : Type 0 where
  pub status : ℕ
  pub block_number : ℕ

-- The calls on web3 and on the two contracts; each may raise. `rebalance_call` is the construction
-- of the call `vault.functions.rebalance`, with `bytes.fromhex` of the signature: it contacts
-- nothing, but refuses a text that is not hexadecimal and numbers outside the ABI's ranges.
pub record Backend (F W : Type 0) : Type 0 where
  pub latest_timestamp : Exec W ℕ
  pub time : W → F × W
  pub gas_price : Exec W ℕ
  pub active_adapter_index : Exec W ℕ
  pub rebalance_nonce : Exec W ℕ
  pub rebalance_call : Signed → Exec W (Unit {0})
  pub estimate_gas : Signed → Exec W ℕ
  pub transaction_count : String → Exec W ℕ
  pub build_transaction : Submission → Exec W Text
  pub sign_transaction : Text → String → Exec W Text
  pub send_raw_transaction : Text → Exec W Text
  pub wait_for_receipt : Text → Exec W Receipt

-- `_smoothed_rates`, the reader's `_prev_tvl`, and the world. `sent` is no part of the program: it
-- keeps the transactions handed to `send_raw_transaction`, the last one first.
pub record Agent (F W : Type 0) : Type 0 where
  pub smoothed_rates : Dict ℤ F
  pub prev_tvl : TvlHistory F
  pub world : W
  pub sent : List Submission

module _ {F W A : Type 0} where
  abbrev pub put_world : Agent F W → Result A × W → Result A × Agent F W
  put_world s (r, w) = (r, record s { world = w })

  abbrev pub on_world : Exec W A → Exec (Agent F W) A
  on_world m s = put_world s (m s.world)
