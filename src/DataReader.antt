-- ===== src/DataReader.antt =====
-- agent/data_reader.py: the registered readers, the isolation of their failures, and the history of
-- TVL. A reader acts on the world `W` that holds the chain and the readers' caches.
pub mod Isolation
pub mod Delta
pub mod Bridge
pub mod Linked
pub mod Forward
mod Tests
use event_time_mcdm_agent.Common.{
  ℕ, ℤ, Option, none, some, List, [], ◌∷◌, ◌++◌, String, Result, ok, raised, runtime_error, Bool,
  true, false, ◌&&◌, ◌||◌, if◌then◌else◌, ◌==◌, int_eq, string_eq,
}
use event_time_mcdm_agent.Common.Dict.{Dict, lookup, insert}
use event_time_mcdm_agent.Common.Exec.{Exec}
use event_time_mcdm_agent.Float.{Float, zero_f, max_f}
use event_time_mcdm_agent.Protocols.{ProtocolData}

-- A `ProtocolReader`, with its class in place of `isinstance`.
pub data ReaderClass : Type 0 where
  aave_v3 compound_v3 other : ReaderClass

pub record Reader (F W : Type 0) : Type 0 where
  pub name : String
  pub class : ReaderClass
  pub read : Exec W (ProtocolData F)

-- What `read_all` gives: the snapshots, the names of the readers that it logged as failed, and the
-- world.
pub record Reading (F W : Type 0) : Type 0 where
  pub results : List (ProtocolData F)
  pub failed : List String
  pub world : W

abbrev pub same_class : ReaderClass → ReaderClass → Bool
same_class aave_v3 aave_v3 = true
same_class compound_v3 compound_v3 = true
same_class other other = true
same_class _ _ = false

module _ {F W : Type 0} where
  abbrev record_read : String → Result (ProtocolData F) → Reading F W → Reading F W
  record_read name (ok d) rest = record rest { results = d ∷ rest.results }
  record_read name (raised e) rest = record rest { failed = name ∷ rest.failed }

  -- `DataReader.read_all`
  unfoldable pub read_all : List (Reader F W) → W → Reading F W
  read_all [] w = record { results = []; failed = []; world = w }
  read_all (r ∷ rest) w =
      let (result, w') = r.read w in record_read r.name result (read_all rest w')

  -- `DataReader.register`
  unfoldable pub register : Reader F W → List (Reader F W) → List (Reader F W)
  register r readers = readers ++ (r ∷ [])

  -- `_read_aave` and `_read_compound`: the first reader of the class, or RuntimeError.
  unfoldable pub read_class : ReaderClass → List (Reader F W) → Exec W (ProtocolData F)
  read_class c [] w = (raised runtime_error, w)
  read_class c (r ∷ rest) w =
      let later = read_class c rest w in if same_class r.class c then r.read w else later

abbrev pub TvlHistory : Type 0 → Type 0
TvlHistory F = Dict ℤ F

module _ {F : Type 0} ⦃f : Float F⦄ where
  -- `prev is None or prev == 0`
  abbrev pub no_previous : Option F → Bool
  no_previous none = true
  no_previous (some prev) = f.le prev zero_f && f.le zero_f prev

  abbrev pub change : F → Option F → F
  change tvl none = zero_f
  change tvl (some prev) =
      if f.le prev zero_f && f.le zero_f prev then zero_f else f.div (f.sub tvl prev) prev

  -- `DataReader.get_tvl_delta`
  unfoldable pub get_tvl_delta : ProtocolData F → TvlHistory F → F × TvlHistory F
  get_tvl_delta protocol prev_tvl = (
    change protocol.tvl (lookup protocol.adapter_index prev_tvl),
    insert protocol.adapter_index protocol.tvl prev_tvl,
  )

  -- `DataReader.block_age_seconds`, from the timestamp of the latest block, or the exception of the
  -- call, and the clock.
  unfoldable pub block_age_seconds : Result ℕ → F → F
  block_age_seconds (raised e) now = f.inf
  block_age_seconds (ok timestamp) now = max_f zero_f (f.sub now (f.ratio timestamp 1))

-- `build_default_readers`: Aave V3 as adapter 0 and Compound V3 as adapter 1.
unfoldable pub build_default_readers :
    {F W : Type 0} → Exec W (ProtocolData F) → Exec W (ProtocolData F) → List (Reader F W)
build_default_readers aave compound =
    record { name = "Aave V3"; class = aave_v3; read = aave }
    ∷ record { name = "Compound V3"; class = compound_v3; read = compound }
    ∷ []

-- The readers that `DataReader.__init__` keeps: those it is given, or else the default ones.
unfoldable pub initial_readers :
    {F W : Type 0} → Option (List (Reader F W)) → List (Reader F W) → List (Reader F W)
initial_readers none default = default
initial_readers (some readers) default = readers
