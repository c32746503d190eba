-- ===== src/History/Restart.antt =====
-- What a restart finds after an append, whether or not its write raised, and a crash.
use event_time_mcdm_agent.Common.{ℕ, Option}
use event_time_mcdm_agent.History.{Parquet, File, Disk}

module _ {R B : Type 0} (parquet : Parquet R B) (n : ℕ) where
  -- A disk with this file.
  abbrev with_live : Option (File B) → Disk B → Disk B
  with_live live d = record d { live = live }
