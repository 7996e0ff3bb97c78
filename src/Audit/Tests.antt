-- ===== src/Audit/Tests.antt =====
-- Timestamps, lines and padding at concrete input, and the theorems about them there.
use toolcage.Prelude.{
  ℕ, ◌≡◌, ◌≢◌, ◌%◌, ◌<◌, ◌+◌, refl, Bytes, text, text_eq, true, [], ◌∷◌, ◌++◌, All, some, length,
  replicate, split_on, arith,
}
use toolcage.TreeMap.{TreeMap, get}
use toolcage.Json.{Value, nat, string, Serde}
use toolcage.Prelude.{err}
use toolcage.Audit.Sha256.{padded}
use toolcage.Audit.Digest.{padded_shape}
use toolcage.Audit.Clock.{rfc3339_utc, civil_from_days, padded_number}
use toolcage.Audit.Calendar.{IsDate, day_number, civil_from_days_lem}
use toolcage.Audit.Trail.{Auditor, memory, to_memory, log_object}
use toolcage.Audit.Logged.{Event, log_all, log_all_lem, log_object-get}

times :
    (rfc3339_utc 0 ≡ text "1970-01-01T00:00:00.000Z")
    × (rfc3339_utc 951782400000 ≡ text "2000-02-29T00:00:00.000Z")
    × (rfc3339_utc 1234567890123 ≡ text "2009-02-13T23:31:30.123Z")
unfolding rfc3339_utc civil_from_days padded_number text
times = (refl, refl, refl)

civil_from_days_lem_example : IsDate 2000 2 29 × (day_number 2000 2 29 ≡ 11016 + 719163)
unfolding civil_from_days
civil_from_days_lem_example = civil_from_days_lem 11016

abbrev fields : TreeMap Value
fields = (text "calls", nat 3) ∷ []

log_object-get_example :
    (get (text "ts") (log_object 0 (text "session_end") fields) ≡ some (string (rfc3339_utc 0)))
    × ((get (text "event") (log_object 0 (text "session_end") fields)
          ≡ some (string (text "session_end")))
        × (get (text "calls") (log_object 0 (text "session_end") fields) ≡ some (nat 3)))
unfolding get text text_eq
log_object-get_example =
    log_object-get 0 (text "session_end") fields (text "calls") (nat 3) (tt, tt) refl refl refl

abbrev serde : Serde
serde = record { to_string = λ v. text "{}"; from_str = λ t. err t }

abbrev event : Event
event = record { now = 0; name = text "session_end"; fields = fields }

braces : All (λ b. b ≢ b'\n') (text "{}")
unfolding text
braces = omega arith

log_all_lem_example :
    let a : Auditor ℕ = log_all serde (λ t f. (true, f + 1)) (event ∷ event ∷ []) to_memory in
    (buf : Bytes) × ((a.sink ≡ memory buf)
      × ((split_on b'\n' buf ≡ text "{}" ∷ text "{}" ∷ [] ∷ []) × (a.dropped ≡ 0)))
log_all_lem_example =
    log_all_lem serde (λ t f. (true, f + 1)) (event ∷ event ∷ []) (braces, (braces, tt))

padded_shape_example :
    (n : ℕ) × (n < 64)
    × (padded (1 ∷ []) ≡ 1 ∷ 0x80 ∷ replicate n 0 ++ 0 ∷ 0 ∷ 0 ∷ 0 ∷ 0 ∷ 0 ∷ 0 ∷ 8 ∷ [])
    × (length (padded (1 ∷ [])) % 64 ≡ 0)
padded_shape_example = padded_shape (1 ∷ [])
