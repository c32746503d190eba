-- ===== src/Api/Models.antt =====
-- agent/api.py: the response models, the messages, and the names of the adapters.
use event_time_mcdm_agent.Common.{
  ℕ, zero, suc, ℤ, pos, Option, List, map, String, Text, Bool, if◌then◌else◌, ◌==◌, string_eq,
  int_eq,
}
use event_time_mcdm_agent.Common.Exec.{Exec}
use event_time_mcdm_agent.Config.{Config}
use event_time_mcdm_agent.Scoring.{ProtocolScore, ScoringDecision}

-- The calls that only the endpoints make.
pub record Views (W : Type 0) : Type 0 where
  pub is_connected : Exec W Bool
  pub total_assets : Exec W ℕ
  pub total_supply : Exec W ℕ
  pub has_active_strategy : Exec W Bool
  pub paused : Exec W Bool
  pub last_rebalance_timestamp : Exec W ℕ
  pub keeper : Exec W String
  pub convert_to_assets : ℕ → Exec W ℕ

-- A name of an adapter: one of the two known ones, or a text made of its index.
pub data AdapterName : Type 0 where
  known : String → AdapterName
  numbered : ℤ → AdapterName

pub record Health : Type 0 where
  pub status : String
  pub rpc_connected : Bool
  pub vault_configured : Bool
  pub timestamp : ℤ

pub record VaultStatus (F : Type 0) : Type 0 where
  pub total_assets_usdc : F
  pub share_price : F
  pub total_shares : F
  pub active_adapter_index : ℕ
  pub active_adapter_name : AdapterName
  pub has_active_strategy : Bool
  pub is_paused : Bool
  pub last_rebalance_timestamp : ℕ
  pub seconds_since_rebalance : ℤ
  pub keeper : String

pub record ProtocolRate (F : Type 0) : Type 0 where
  pub name : String
  pub adapter_index : ℤ
  pub apy_percent : F
  pub utilization_percent : F
  pub smoothed_apy_percent : F

-- One dict of `details`.
pub record Detail (F : Type 0) : Type 0 where
  pub name : String
  pub total_score : F
  pub apy_score : F
  pub risk_score : F
  pub cost_score : F
  pub stability_score : F

pub record ScoreResult (F : Type 0) : Type 0 where
  pub should_rebalance : Bool
  pub current_adapter : AdapterName
  pub best_adapter : AdapterName
  pub current_score : F
  pub best_score : F
  pub score_delta : F
  pub threshold : F
  pub details : List (Detail F)

-- The three texts, by what they mention.
pub data Message (F : Type 0) : Type 0 where
  not_needed : (score_delta threshold : F) → Message F
  would_rebalance : (best_adapter : AdapterName) (score_delta : F) → Message F
  rebalanced : (best_adapter : AdapterName) (block_number : ℕ) → Message F

pub record RebalanceResult (F : Type 0) : Type 0 where
  pub executed : Bool
  pub dry_run : Bool
  pub target_adapter_index : ℤ
  pub message : Message F
  pub tx_hash : Option Text

-- adapter_names.get(index, …)
unfoldable pub adapter_name : ℤ → AdapterName
adapter_name (pos zero) = known "Aave V3"
adapter_name (pos (suc zero)) = known "Compound V3"
adapter_name index = numbered index

-- name_to_idx.get(name, 0); no text that is made of an index is a key.
unfoldable pub index_of_name : AdapterName → ℤ
index_of_name (known name) = if name == "Compound V3" then pos 1 else pos 0
index_of_name (numbered index) = pos 0

module _ {F : Type 0} where
  unfoldable pub detail_of : ProtocolScore F → Detail F
  detail_of s = record {
    name = s.name;
    total_score = s.total_score;
    apy_score = s.apy_score;
    risk_score = s.risk_score;
    cost_score = s.cost_score;
    stability_score = s.stability_score;
  }

  unfoldable pub score_result : Config F → ScoringDecision F → ScoreResult F
  score_result config decision = record {
    should_rebalance = decision.should_rebalance;
    current_adapter = adapter_name decision.current_index;
    best_adapter = adapter_name decision.target_index;
    current_score = decision.current_score;
    best_score = decision.target_score;
    score_delta = decision.score_delta;
    threshold = config.score_threshold;
    details = map detail_of decision.scores;
  }
