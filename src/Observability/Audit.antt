-- ===== src/Observability/Audit.antt =====
-- `json_log` and `AuditTrail`: one file for each day, open for appending while its day lasts. What
-- the operating system does is an argument; a line is any type.
use event_time_mcdm_agent.Common.{
  List, [], ◌∷◌, ◌++◌, Option, none, some, String, Bool, false, if◌then◌else◌, ◌==◌, string_eq,
  Result, ok, raised, value_error, external,
}
use event_time_mcdm_agent.Common.Dict.{Dict, lookup, insert}
use event_time_mcdm_agent.Common.Exec.{Exec, ◌>>◌}

-- `write`, `flush` and `fsync` of a line: done, or failed with the line in the file or without it. A
-- line that a failed `flush` leaves in the buffer counts as in the file, and none is written in part.
pub data Writing : Type 0 where
  durable failed_after failed_before : Writing

-- The day of the clock, whether `open` succeeds, how the write goes, and whether stderr can be
-- written to.
pub record Os : Type 0 where
  pub day : String
  pub opens : Bool
  pub writing : Writing
  pub stderr : Bool

-- `_fp`: None, or a file object by the day of its file.
pub data Handle : Type 0 where
  no_file : Handle
  open_file closed_file : String → Handle

-- The trail, the files in its directory by their day, and the events that reached stderr.
pub record AuditTrail (L : Type 0) : Type 0 where
  pub fp : Handle
  pub current_day : Option String
  pub files : Dict String (List L)
  pub logged : List String

abbrev pub closed : Handle → Handle
closed (open_file day) = closed_file day
closed fp = fp

abbrev pub is_current : String → Option String → Bool
is_current day none = false
is_current day (some current) = day == current

module _ {L : Type 0} where
  -- `json_log`, whose failures are swallowed.
  unfoldable pub json_log : Bool → String → AuditTrail L → AuditTrail L
  json_log stderr event a = if stderr then record a { logged = event ∷ a.logged } else a

  abbrev pub created : Option (List L) → List L
  created none = []
  created (some lines) = lines

  -- The lines of a day; a file that is not there has none.
  abbrev pub lines_of : String → AuditTrail L → List L
  lines_of day a = created (lookup day a.files)

  -- The old file is closed before the new one is opened.
  unfoldable pub open_day : Os → Exec (AuditTrail L) (Unit {0})
  open_day os a =
      if os.opens
      then (
        ok tt,
        record a {
          fp = open_file os.day;
          current_day = some os.day;
          files = insert os.day (lines_of os.day a) a.files;
        },
      )
      else (raised (external []), record a { fp = closed a.fp })

  -- `_file_for_today`
  unfoldable pub file_for_today : Os → Exec (AuditTrail L) (Unit {0})
  file_for_today os a = if is_current os.day a.current_day then (ok tt, a) else open_day os a

  abbrev put_line : String → L → AuditTrail L → AuditTrail L
  put_line day line a = record a { files = insert day (lines_of day a ++ (line ∷ [])) a.files }

  abbrev write_to : String → L → Writing → Exec (AuditTrail L) (Unit {0})
  write_to day line durable a = (ok tt, put_line day line a)
  write_to day line failed_after a = (raised (external []), put_line day line a)
  write_to day line failed_before a = (raised (external []), a)

  -- A closed file object raises ValueError.
  unfoldable pub write_line : Os → L → Exec (AuditTrail L) (Unit {0})
  write_line os line a = write a.fp
    where
      write : Handle → Result (Unit {0}) × AuditTrail L
      write no_file = (raised (external []), a)
      write (closed_file day) = (raised value_error, a)
      write (open_file day) = write_to day line os.writing a

  -- The body of the `try` of `append`.
  unfoldable pub try_append : Os → L → Exec (AuditTrail L) (Unit {0})
  try_append os line = do file_for_today os; write_line os line

  -- `AuditTrail.append`, which never raises.
  unfoldable pub append : Os → L → AuditTrail L → AuditTrail L
  append os line a = after (try_append os line a)
    where
      after : Result (Unit {0}) × AuditTrail L → AuditTrail L
      after (ok x, a') = a'
      after (raised e, a') = json_log os.stderr "audit_write_failed" a'

  -- `AuditTrail.close`
  unfoldable pub close : AuditTrail L → AuditTrail L
  close a = stop a.fp
    where
      stop : Handle → AuditTrail L
      stop no_file = a
      stop fp = record a { fp = no_file; current_day = none }

  unfoldable pub append_each : List (Os × L) → AuditTrail L → AuditTrail L
  append_each [] a = a
  append_each ((os, line) ∷ rest) a = append_each rest (append os line a)
