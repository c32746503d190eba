-- ===== src/DataReader/Tests.antt =====
-- Concrete readers and observations for the theorems.
use event_time_mcdm_agent.Common.{
  int_eq, ℕ, pos, ◌+◌, ◌≡◌, refl, zero, suc, some, none, List, [], ◌∷◌, ◌++◌, Result, ok, raised,
  runtime_error, In, ℤ,
}
use event_time_mcdm_agent.Common.Dict.{lookup}
use event_time_mcdm_agent.Float.{zero_f}
use event_time_mcdm_agent.Float.Decimal.{Decimal, num, decimal_float}
use event_time_mcdm_agent.Protocols.{ProtocolData}
use event_time_mcdm_agent.DataReader.{Reader, aave_v3, compound_v3, other, read_all, get_tvl_delta}
use event_time_mcdm_agent.Protocols.Aave.{PoolReader}
use event_time_mcdm_agent.DataReader.Bridge.{
  aave_object, comet_object, Heap, System, first_aave, assign_each, new_data_reader, bind_readers,
  bind_reader, link_aave_compat, set_attribute, forward,
}
use event_time_mcdm_agent.DataReader.Linked.{IsLast}
use event_time_mcdm_agent.DataReader.Forward.{
  Write, atoken, assignments, reached, assign_each-IsForwarded,
}
use event_time_mcdm_agent.DataReader.Isolation.{read_all_isolates}
use event_time_mcdm_agent.DataReader.Delta.{get_tvl_delta_first}

abbrev market : ℤ → ℕ → ProtocolData Decimal
market i n = record {
  name = "market";
  adapter_index = i;
  apy = num (pos 0);
  utilization = num (pos 0);
  tvl = num (pos n);
  raw_rate_1e18 = pos 0;
}

-- The world counts the reads that reached the chain.
abbrev aave : Reader Decimal ℕ
aave = record { name = "Aave V3"; class = aave_v3; read = λ w. (ok (market (pos 0) w), w + 1) }

abbrev compound : Reader Decimal ℕ
compound = record {
  name = "Compound V3";
  class = compound_v3;
  read = λ w. (ok (market (pos 1) w), w + 1);
}

abbrev broken : Reader Decimal ℕ
broken = record { name = "Spark"; class = other; read = λ w. (raised runtime_error, w) }

read_all_isolates_example :
    let with_bad = read_all ((aave ∷ []) ++ (broken ∷ compound ∷ [])) 5 in
    let without = read_all ((aave ∷ []) ++ (compound ∷ [])) 5 in
    (with_bad.results ≡ without.results)
    × (with_bad.world ≡ without.world)
    × In "Spark" with_bad.failed
unfolding read_all
read_all_isolates_example =
    read_all_isolates (aave ∷ []) broken (compound ∷ []) 5 runtime_error refl

get_tvl_delta_first_example :
    (get_tvl_delta (market (pos 1) 100) ((pos 0, num (pos 7)) ∷ [])).0 ≡ zero_f
unfolding lookup
get_tvl_delta_first_example =
    get_tvl_delta_first (market (pos 1) 100) ((pos 0, num (pos 7)) ∷ []) refl

abbrev unreadable : Result ℕ
unreadable = raised runtime_error

-- Two Aave readers, at 0 and 2, with Compound's between them.
abbrev unbound : PoolReader
unbound = record { adapter_index = pos 0; atoken = none; variable_debt = none }

abbrev three : Heap
three zero = aave_object "pool" unbound
three (suc zero) = comet_object "comet"
three (suc (suc p)) = aave_object "second pool" unbound

abbrev three_readers : List ℕ
three_readers = 0 ∷ 1 ∷ 2 ∷ []

abbrev one_write : List Write
one_write = atoken (some "a") ∷ []

abbrev bridged : System
bridged = assign_each (assignments one_write) (new_data_reader three_readers three)

assign_each-IsForwarded_example :
    ((q : ℕ) → (new_data_reader three_readers three).1 q ≡ three q)
    × IsLast three three_readers bridged.0.aave_reader
    × ((q : ℕ) → bridged.1 q ≡ reached bridged.0.aave_reader one_write three q)
    × (bridged.0.aave_atoken ≡ some "a")
    × (bridged.0.aave_variable_debt ≡ none)
assign_each-IsForwarded_example = assign_each-IsForwarded three_readers three one_write

-- `_read_aave` reads the first of the two, and the bridge writes to the last.
first_is_not_linked : (first_aave three three_readers ≡ some 0) × (bridged.0.aave_reader ≡ some 2)
unfolding first_aave assign_each new_data_reader bind_readers bind_reader link_aave_compat
    set_attribute forward
first_is_not_linked = (refl, refl)
