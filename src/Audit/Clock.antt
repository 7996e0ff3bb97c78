-- ===== src/Audit/Clock.antt =====
-- The timestamps of src/audit.rs: `rfc3339_utc` and `civil_from_days`. The seconds of a u64 of
-- milliseconds fit an i64 and are not negative, so that days and all that is computed from them are
-- natural numbers.
use toolcage.Prelude.{
  ℕ, zero, suc, ◌+◌, ◌-◌, ◌*◌, ◌/◌, ◌%◌, ◌<◌, ◌≡◌, refl, Text, text, true, false, [], ◌∷◌, ◌++◌,
  length, replicate, ltb, leb, if◌then◌else◌, arith,
}

abbrev pub year_of_era : ℕ → ℕ
year_of_era doe = (doe - doe / 1460 + doe / 36524 - doe / 146096) / 365

abbrev pub day_of_year : ℕ → ℕ → ℕ
day_of_year doe yoe = doe - (365 * yoe + yoe / 4 - yoe / 100)

unfoldable pub civil_from_days : ℕ → ℕ × (ℕ × ℕ)
civil_from_days days =
    let z = days + 719468 in
    let era = z / 146097 in
    let doe = z % 146097 in
    let yoe = year_of_era doe in
    let y = yoe + era * 400 in
    let doy = day_of_year doe yoe in
    let mp = (5 * doy + 2) / 153 in
    let d = doy - (153 * mp + 2) / 5 + 1 in
    let m = if ltb mp 10 then mp + 3 else mp - 9 in ((if leb m 2 then y + 1 else y), (m, d))

-- `{}` on a number; 20 steps are enough for 64 bits.
unfoldable pub digits_of : ℕ → ℕ → Text
digits_of zero n = []
digits_of (suc fuel) n = elim (ltb n 10) [
  | true ↦ (48 + n) ∷ []
  | false ↦ digits_of fuel (n / 10) ++ (48 + n % 10) ∷ []
]

-- `{:0width}`
unfoldable pub padded_number : ℕ → ℕ → Text
unfolding digits_of
padded_number width n =
    let digits = digits_of 20 n in replicate (width - length digits) b'0' ++ digits

unfoldable pub rfc3339_utc : ℕ → Text
rfc3339_utc unix_ms =
    let secs = unix_ms / 1000 in
    let millis = unix_ms % 1000 in
    let days = secs / 86400 in
    let sod = secs % 86400 in
    let (year, (month, day)) = civil_from_days days in
    let hh = sod / 3600 in
    let mm = sod % 3600 / 60 in
    let ss = sod % 60 in
    padded_number 4 year
    ++ (b'-' ∷ padded_number 2 month
        ++ (b'-' ∷ padded_number 2 day
            ++ (b'T' ∷ padded_number 2 hh
                ++ (b':' ∷ padded_number 2 mm
                    ++ (b':' ∷ padded_number 2 ss
                        ++ (b'.' ∷ padded_number 3 millis ++ text "Z"))))))

leap_day : rfc3339_utc 951782400000 ≡ text "2000-02-29T00:00:00.000Z"
unfolding rfc3339_utc civil_from_days padded_number text
leap_day = refl

year_small : (doe : ℕ) → doe < 146097 → year_of_era doe < 400
year_small doe h = omega arith
