-- ===== src/Observability/Rotation.antt =====
-- agent/observability.py: the files of `AuditTrail` over a sequence of appends.
use event_time_mcdm_agent.Common.{
  List, [], ◌∷◌, ◌++◌, Option, none, some, String, Bool, true, false, if◌then◌else◌, ◌==◌,
  string_eq, ◌≡◌, ap, ◌∙◌, sym, same→eq, ◌⊎◌, All, Sublist, arith, ok,
}
use mathlib.Core.List.{append-nil, append_assoc}
use event_time_mcdm_agent.Common.Dict.{lookup-insert}
use event_time_mcdm_agent.Common.Exec.{bind}
use event_time_mcdm_agent.Observability.Audit.{
  Os, durable, Handle, no_file, open_file, closed_file, AuditTrail, is_current, json_log, lines_of,
  open_day, file_for_today, write_line, try_append, append, append_each,
}

abbrev day_of : Handle → Option String
day_of no_file = none
day_of (open_file day) = some day
day_of (closed_file day) = some day

is_current→eq :
    (day : String) (current : Option String) → is_current day current ≡ true → current ≡ some day
is_current→eq day none h = cc
is_current→eq day (some current) h = ap some (sym (same→eq day current h))

abbrev is_closed : Handle → Bool
is_closed (closed_file day) = true
is_closed fp = false

module _ {L : Type 0} where
  -- `_current_day` is the day of the file that `_fp` is, open or closed.
  abbrev pub IsNamed : AuditTrail L → Type 0
  IsNamed a = day_of a.fp ≡ a.current_day

  -- What an append may do to the lines of a day.
  abbrev Grown : String → Os → L → AuditTrail L → AuditTrail L → Type 0
  Grown d os line a a' =
      (lines_of d a' ≡ lines_of d a)
      ⊎ ((d ≡ os.day) × (lines_of d a' ≡ lines_of d a ++ (line ∷ [])))

  lines_of-json_log :
      (b : Bool) (event d : String) (a : AuditTrail L)
      → lines_of d (json_log b event a) ≡ lines_of d a
  unfolding json_log
  lines_of-json_log b event d a = ground arith

  file_for_today-IsNamed :
      (os : Os) (a : AuditTrail L) → IsNamed a → IsNamed (file_for_today os a).1
  unfolding file_for_today open_day
  file_for_today-IsNamed os a h = ground arith

  lines_of-file_for_today :
      (os : Os) (d : String) (a : AuditTrail L) → lines_of d (file_for_today os a).1 ≡ lines_of d a
  unfolding file_for_today open_day
  lines_of-file_for_today os d a =
      ground
        (arith, lookup-insert os.day d (lines_of os.day a) a.files, string_eq.same_iff os.day d)

  append-IsNamed : (os : Os) (line : L) (a : AuditTrail L) → IsNamed a → IsNamed (append os line a)
  unfolding append try_append bind write_line json_log
  append-IsNamed os line a h = ground (arith, file_for_today-IsNamed os a h)

  -- The lines that a sequence of appends brings on a day.
  unfoldable pub lines_for : String → List (Os × L) → List L
  lines_for d [] = []
  lines_for d ((os, line) ∷ rest) =
      let later = lines_for d rest in if os.day == d then line ∷ later else later

  abbrev Extended : String → List (Os × L) → AuditTrail L → AuditTrail L → Type 0
  Extended d appends a a' =
      (kept : List L) × Sublist kept (lines_for d appends) × (lines_of d a' ≡ lines_of d a ++ kept)

  -- The day can be opened and the line reaches the disk.
  abbrev pub IsUp : Os × L → Type 0
  IsUp (os, line) = (os.opens ≡ true) × (os.writing ≡ durable)

  file_for_today-IsUp :
      (os : Os) (line : L) (a : AuditTrail L)
      → IsUp (os, line)
      → is_closed a.fp ≡ false
      → IsNamed a
      → ((file_for_today os a).0 ≡ ok tt) × ((file_for_today os a).1.fp ≡ open_file os.day)
  unfolding file_for_today open_day
  file_for_today-IsUp os line a up o h = ground (arith, is_current→eq os.day a.current_day)

  write_line-durable :
      (os : Os) (line : L) (d : String) (a : AuditTrail L)
      → os.writing ≡ durable
      → a.fp ≡ open_file os.day
      → (lines_of d (write_line os line a).1
          ≡ (if os.day == d then lines_of d a ++ (line ∷ []) else lines_of d a))
        × ((write_line os line a).1.fp ≡ open_file os.day)
  unfolding write_line
  write_line-durable os line d a w h = ground (
    arith,
    lookup-insert os.day d (lines_of os.day a ++ (line ∷ [])) a.files,
    string_eq.same_iff os.day d,
  )

  append-IsUp :
      (os : Os) (line : L) (d : String) (a : AuditTrail L)
      → IsUp (os, line)
      → is_closed a.fp ≡ false
      → IsNamed a
      → (lines_of d (append os line a)
          ≡ (if os.day == d then lines_of d a ++ (line ∷ []) else lines_of d a))
        × (is_closed (append os line a).fp ≡ false)
  unfolding append try_append bind json_log
  append-IsUp os line d a up o h = ground (
    arith,
    file_for_today-IsUp os line a up o h,
    lines_of-file_for_today os d a,
    write_line-durable os line d (file_for_today os a).1,
  )

  -- While the day can be opened and every write reaches the disk, a trail whose file is not closed
  -- under it holds for each day what it held, and then every line appended on that day in the order
  -- of the appends.
  pub append_each-IsUp :
      (appends : List (Os × L)) (d : String) (a : AuditTrail L)
      → All IsUp appends
      → is_closed a.fp ≡ false
      → IsNamed a
      → lines_of d (append_each appends a) ≡ lines_of d a ++ lines_for d appends
  unfolding append_each lines_for
  append_each-IsUp [] d a up o h = sym (append-nil (lines_of d a))
  append_each-IsUp ((os, line) ∷ rest) d a (u, up) o h =
      append_each-IsUp rest d (append os line a) up (append-IsUp os line d a u o h).1
        (append-IsNamed os line a h)
      ∙ add_line (os.day == d) (append-IsUp os line d a u o h).0
    where
      add_line :
          (b : Bool)
          → lines_of d (append os line a)
            ≡ (if b then lines_of d a ++ (line ∷ []) else lines_of d a)
          → lines_of d (append os line a) ++ lines_for d rest
            ≡ lines_of d a ++ (if b then line ∷ lines_for d rest else lines_for d rest)
      add_line true e = rw e (append_assoc (lines_of d a) (line ∷ []) (lines_for d rest))
      add_line false e = rw e
