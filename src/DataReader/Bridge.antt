-- ===== src/DataReader/Bridge.antt =====
-- agent/data_reader.py: the attributes of a DataReader that old tests use, and the bridge from two of
-- them to the caches of an Aave reader. The readers are objects behind pointers, since the list and
-- `_aave_reader` share them.
use event_time_mcdm_agent.Common.{
  ℕ, Option, none, some, List, [], ◌∷◌, String, nat_beq, if◌then◌else◌,
}
use event_time_mcdm_agent.Protocols.Aave.{PoolReader}

-- A reader with its class, and the attributes that are shared: the contract of its pool and the
-- caches of an AaveV3Reader, the contract of a CompoundV3Reader.
pub data ReaderObject : Type 0 where
  aave_object : String → PoolReader → ReaderObject
  comet_object : String → ReaderObject
  other_object : ReaderObject

abbrev pub Heap : Type 0
Heap = ℕ → ReaderObject

-- The attributes that the bridge is about; `_prev_tvl` is the history of `get_tvl_delta`.
-- `aave_reader` is none while there is no such attribute.
pub record Attributes : Type 0 where
  pub readers : List ℕ
  pub aave_pool : Option String
  pub comet : Option String
  pub aave_atoken : Option String
  pub aave_variable_debt : Option String
  pub aave_reader : Option ℕ

-- An assignment to an attribute.
pub data Assignment : Type 0 where
  to_aave_pool : Option String → Assignment
  to_comet : Option String → Assignment
  to_aave_atoken : Option String → Assignment
  to_aave_variable_debt : Option String → Assignment
  to_aave_reader : ℕ → Assignment

abbrev pub System : Type 0
System = Attributes × Heap

abbrev pub set_atoken : Option String → ReaderObject → ReaderObject
set_atoken v (aave_object pool r) = aave_object pool (record r { atoken = v })
set_atoken v o = o

abbrev pub set_variable_debt : Option String → ReaderObject → ReaderObject
set_variable_debt v (aave_object pool r) = aave_object pool (record r { variable_debt = v })
set_variable_debt v o = o

abbrev pub update_object : ℕ → (ReaderObject → ReaderObject) → Heap → Heap
update_object p change h q = if nat_beq p q then change (h q) else h q

-- `hasattr(self, "_aave_reader")` guards the write.
unfoldable pub forward : Option ℕ → (ReaderObject → ReaderObject) → Heap → Heap
forward none change h = h
forward (some p) change h = update_object p change h

-- `DataReader.__setattr__`
unfoldable pub set_attribute : Assignment → System → System
set_attribute (to_aave_pool v) (d, h) = (record d { aave_pool = v }, h)
set_attribute (to_comet v) (d, h) = (record d { comet = v }, h)
set_attribute (to_aave_atoken v) (d, h) =
    (record d { aave_atoken = v }, forward d.aave_reader (set_atoken v) h)
set_attribute (to_aave_variable_debt v) (d, h) =
    (record d { aave_variable_debt = v }, forward d.aave_reader (set_variable_debt v) h)
set_attribute (to_aave_reader p) (d, h) = (record d { aave_reader = some p }, h)

-- `_link_aave_compat`
unfoldable pub link_aave_compat : ℕ → System → System
link_aave_compat p s = set_attribute (to_aave_reader p) s

-- The body of the loop of `__init__`.
unfoldable pub bind_reader : ℕ → ReaderObject → System → System
bind_reader p (aave_object pool r) s =
    link_aave_compat p (set_attribute (to_aave_pool (some pool)) s)
bind_reader p (comet_object comet) s = set_attribute (to_comet (some comet)) s
bind_reader p other_object s = s

unfoldable pub bind_readers : List ℕ → System → System
bind_readers [] s = s
bind_readers (p ∷ ps) s = bind_readers ps (bind_reader p (s.1 p) s)

-- What `__init__` starts with.
abbrev pub blank : List ℕ → Attributes
blank readers = record {
  readers = readers;
  aave_pool = none;
  comet = none;
  aave_atoken = none;
  aave_variable_debt = none;
  aave_reader = none;
}

-- Assignments one after the other.
unfoldable pub assign_each : List Assignment → System → System
assign_each [] s = s
assign_each (a ∷ rest) s = assign_each rest (set_attribute a s)

-- `DataReader.__init__`, for the pointers to its readers.
unfoldable pub new_data_reader : List ℕ → Heap → System
new_data_reader readers h = bind_readers readers (
    assign_each
      (to_aave_pool none ∷ to_comet none ∷ to_aave_atoken none ∷ to_aave_variable_debt none ∷ [])
      (blank readers, h))

-- The reader that `_read_aave` reads: the first of its class.
unfoldable pub first_aave : Heap → List ℕ → Option ℕ
first_aave h [] = none
first_aave h (p ∷ ps) = let later = first_aave h ps in choose (h p) later
  where
    choose : ReaderObject → Option ℕ → Option ℕ
    choose (aave_object pool r) later = some p
    choose _ later = later
