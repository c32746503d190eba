-- ===== src/Config.antt =====
-- agent/config.py: the agent's parameters and how the environment overrides them. Python's `int(…)`
-- and `float(…)` on a text are parameters; `none` is the ValueError, which ends the import.
-- `load_abi` reads a file of Foundry's output; reading and decoding it is a parameter.
use event_time_mcdm_agent.Common.{
  ℕ, ℤ, String, Option, none, some, Result, ok, raised, value_error, key_error, external, ◌>>=◌, [],
  Bool, if◌then◌else◌, ◌==◌, string_eq,
}
use Prim.Native.String.{◌++◌ as ◌<>◌}
use event_time_mcdm_agent.Mempool.{Json, object, Members, no_members, member}

-- What `os.getenv` gives for a name.
abbrev pub Environment : Type 0
Environment = String → Option String

pub record Config (F : Type 0) : Type 0 where
  pub rpc_url : String
  pub private_key : String
  pub vault_address : String
  pub strategy_manager_address : String
  pub check_interval_seconds : ℤ
  pub score_threshold : F
  pub max_loss_bps : ℤ
  pub ema_alpha : F
  pub max_block_age_seconds : ℤ
  pub gas_limit_fallback : ℤ
  pub nonce_retry_limit : ℤ
  pub weight_apy : F
  pub weight_risk : F
  pub weight_cost : F
  pub weight_stability : F

abbrev pub chain_id : ℕ
chain_id = 11155111

abbrev pub usdc_address : String
usdc_address = "0x94a9D9AC8a22534E3FaCa9F4e7F2E2cf85d5E4C8"

abbrev pub aave_pool_address : String
aave_pool_address = "0x6Ae43d3271ff6888e7Fc43Fd7321a503ff738951"

abbrev pub compound_comet_address : String
compound_comet_address = "0xAec1F48e02Cfb822Be958B68C7957156EB3F0b6e"

-- os.getenv(name, default)
abbrev pub getenv : Environment → String → String → String
getenv env name default = elim (env name) [ none ↦ default | some v ↦ v ]

abbrev pub or_value_error {ℓ} : {A : Type ℓ} → Option A → Result A
or_value_error none = raised value_error
or_value_error (some a) = ok a

module _ {F : Type 0} (parse_int : String → Option ℤ) (parse_float : String → Option F) where
  abbrev int_setting : Environment → String → String → Result ℤ
  int_setting env name default = or_value_error (parse_int (getenv env name default))

  abbrev float_setting : Environment → String → String → Result F
  float_setting env name default = or_value_error (parse_float (getenv env name default))

  unfoldable pub from_env : Environment → Result (Config F)
  from_env env = do
    check_interval ← int_setting env "CHECK_INTERVAL" "3600"
    threshold ← float_setting env "SCORE_THRESHOLD" "0.05"
    loss ← int_setting env "MAX_LOSS_BPS" "50"
    alpha ← float_setting env "EMA_ALPHA" "0.3"
    age ← int_setting env "MAX_BLOCK_AGE_SECONDS" "180"
    gas_limit ← int_setting env "GAS_LIMIT_FALLBACK" "500000"
    retries ← int_setting env "NONCE_RETRY_LIMIT" "3"
    apy ← float_setting env "WEIGHT_APY" "0.40"
    risk ← float_setting env "WEIGHT_RISK" "0.25"
    cost ← float_setting env "WEIGHT_COST" "0.20"
    stability ← float_setting env "WEIGHT_STABILITY" "0.15"
    ok (record {
      rpc_url = getenv env "SEPOLIA_RPC_URL" "";
      private_key = getenv env "KEEPER_PRIVATE_KEY" "";
      vault_address = getenv env "VAULT_ADDRESS" "";
      strategy_manager_address = getenv env "STRATEGY_MANAGER_ADDRESS" "";
      check_interval_seconds = check_interval;
      score_threshold = threshold;
      max_loss_bps = loss;
      ema_alpha = alpha;
      max_block_age_seconds = age;
      gas_limit_fallback = gas_limit;
      nonce_retry_limit = retries;
      weight_apy = apy;
      weight_risk = risk;
      weight_cost = cost;
      weight_stability = stability;
    })

-- `_OUT_DIR`: "/out" if it exists, or else beside the project.
unfoldable pub out_dir : (String → Bool) → String → String
out_dir exists project_root = if exists "/out" then "/out" else project_root <> "/out"

unfoldable pub abi_path : String → String → String
abi_path dir contract_name = dir <> "/" <> contract_name <> ".sol/" <> contract_name <> ".json"

-- value["abi"] of a decoded file: a KeyError without the key, a TypeError if it is no object.
unfoldable pub abi_of : Json → Result Json
abi_of (object members) = item members
  where
    item : Members → Result Json
    item no_members = raised key_error
    item (member k v rest) = let later = item rest in if k == "abi" then ok v else later
abi_of _ = raised (external [])

-- `load_abi`
unfoldable pub load_abi : (String → Result Json) → String → String → Result Json
load_abi load dir contract_name = load (abi_path dir contract_name) >>= abi_of

unfoldable pub get_vault_abi : (String → Result Json) → String → Result Json
get_vault_abi load dir = load_abi load dir "AIVault"

unfoldable pub get_strategy_manager_abi : (String → Result Json) → String → Result Json
get_strategy_manager_abi load dir = load_abi load dir "StrategyManager"
