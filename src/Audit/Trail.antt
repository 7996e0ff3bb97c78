-- ===== src/Audit/Trail.antt =====
-- `Auditor` of src/audit.rs: one JSON line for each event, and a counter of the lines that could
-- not be written. `F` is the state of a file or of the standard error, and writing to it a
-- parameter.
use toolcage.Prelude.{
  ℕ, ◌+◌, Bytes, Text, text, Bool, true, false, [], ◌∷◌, ◌++◌, Option, none, some, Result, ok, err,
  u64, if◌then◌else◌,
}
use toolcage.TreeMap.{TreeMap, insert, insert_all}
use toolcage.Json.{Value, string, object, members, object_of, Serde}
use toolcage.Audit.Clock.{rfc3339_utc}

pub data Sink (F : Type 0) : Type 0 where
  file stderr : F → Sink F
  memory : Bytes → Sink F

-- A lock is poisoned when a thread has panicked while it held it.
pub record Auditor (F : Type 0) : Type 0 where
  pub sink : Sink F
  pub poisoned : Bool
  pub dropped : ℕ

abbrev pub to_memory : {F : Type 0} → Auditor F
to_memory = record { sink = memory []; poisoned = false; dropped = 0 }

abbrev pub to_stderr : {F : Type 0} → F → Auditor F
to_stderr f = record { sink = stderr f; poisoned = false; dropped = 0 }

-- Opening for appending is a parameter, with the text of its error.
unfoldable pub to_file :
    {F : Type 0} → (open_append : Text → Result Text F) → Text → Result Text (Auditor F)
to_file open_append path = elim (open_append path) [
  | err e ↦ err (text "failed to open audit log " ++ (path ++ (text ": " ++ e)))
  | ok f ↦ ok (record { sink = file f; poisoned = false; dropped = 0 })
]

-- `fields`, which panics on what is no object.
unfoldable pub fields : Value → Option (TreeMap Value)
fields (object o) = some (members o)
fields _ = none

-- The object of a line; the fields come last.
unfoldable pub log_object : ℕ → Text → TreeMap Value → TreeMap Value
log_object now event fields =
    insert_all fields
      (insert (text "event") (string event) (insert (text "ts") (string (rfc3339_utc now)) []))

unfoldable pub log_line : Serde → ℕ → Text → TreeMap Value → Text
log_line serde now event fields =
    serde.to_string (object_of (log_object now event fields)) ++ b'\n' ∷ []

module _ {F : Type 0} (serde : Serde) (write_all : Text → F → Bool × F) where
  -- The match on the sink: whether the line was written, and the sink after that.
  unfoldable pub write : Text → Sink F → Bool × Sink F
  write line (file f) = let (done, g) = write_all line f in (done, file g)
  write line (stderr f) = let (done, g) = write_all line f in (done, stderr g)
  write line (memory buf) = (true, memory (buf ++ line))

  unfoldable pub log_text : Text → Auditor F → Auditor F
  unfolding write
  log_text line a =
      if a.poisoned
      then record a { dropped = u64 (a.dropped + 1) }
      else (let (done, sink) = write line a.sink in
          record a { sink = sink; dropped = (if done then a.dropped else u64 (a.dropped + 1)) })

  -- `now` is the time in milliseconds.
  unfoldable pub log : ℕ → Text → TreeMap Value → Auditor F → Auditor F
  log now event fields a = log_text (log_line serde now event fields) a

-- `String::from_utf8_lossy` is a parameter.
unfoldable pub memory_contents : {F : Type 0} → (Bytes → Text) → Auditor F → Option Text
memory_contents from_utf8_lossy a =
    if a.poisoned then none else elim a.sink [ memory buf ↦ some (from_utf8_lossy buf) | _ ↦ none ]
