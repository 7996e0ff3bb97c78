-- ===== src/Audit/Calendar.antt =====
-- `civil_from_days` of src/audit.rs against the Gregorian calendar.
use toolcage.Prelude.{
  ℕ, ◌+◌, ◌-◌, ◌*◌, ◌/◌, ◌%◌, ◌≤◌, ◌<◌, ◌≡◌, refl, inl, inr, Bool, true, false, ◌==◌, not, ◌&&◌,
  ◌||◌, ltb, leb, if◌then◌else◌, get_or, counterexample, no_counterexample, Bool-cases, List, [],
  ◌∷◌, none, arith,
}
use toolcage.Audit.Clock.{year_of_era, day_of_year, civil_from_days}

year_small : (doe : ℕ) → doe < 146097 → year_of_era doe < 400
year_small doe h = omega arith

year_starts :
    (doe : ℕ) → doe < 146097 → let yoe = year_of_era doe in 365 * yoe + yoe / 4 - yoe / 100 ≤ doe
year_starts doe h = omega arith

-- The calendar: leap years, the days before a month and in it, and the number of a date, counted
-- from 1 January of the year 1, which has number 1.
abbrev pub is_leap : ℕ → Bool
is_leap y = (y % 4 == 0) && (not (y % 100 == 0) || y % 400 == 0)

abbrev pub leap_day : ℕ → ℕ
leap_day y = if is_leap y then 1 else 0

abbrev month_starts : List ℕ
month_starts = 0 ∷ 0 ∷ 31 ∷ 59 ∷ 90 ∷ 120 ∷ 151 ∷ 181 ∷ 212 ∷ 243 ∷ 273 ∷ 304 ∷ 334 ∷ []

abbrev month_lengths : List ℕ
month_lengths = 0 ∷ 31 ∷ 28 ∷ 31 ∷ 30 ∷ 31 ∷ 30 ∷ 31 ∷ 31 ∷ 30 ∷ 31 ∷ 30 ∷ 31 ∷ []

unfoldable pub days_before_month : ℕ → ℕ → ℕ
days_before_month y m = get_or month_starts m 0 + (if leb m 2 then 0 else leap_day y)

unfoldable pub days_in_month : ℕ → ℕ → ℕ
days_in_month y m = get_or month_lengths m 0 + (if m == 2 then leap_day y else 0)

unfoldable pub days_before_year : ℕ → ℕ
days_before_year y = 365 * (y - 1) + (y - 1) / 4 - (y - 1) / 100 + (y - 1) / 400

unfoldable pub day_number : ℕ → ℕ → ℕ → ℕ
day_number y m d = days_before_year y + days_before_month y m + d

pub record IsDate (y m d : ℕ) : Type 0 where
  pub month_in : (1 ≤ m) × (m ≤ 12)
  pub day_in : (1 ≤ d) × (d ≤ days_in_month y m)

-- The days from 1 March of the year 0 to that of another year.
march_days : ℕ → ℕ
march_days y = 365 * y + y / 4 - y / 100 + y / 400

leaps_step : (y : ℕ) → 0 < y → march_days y ≡ days_before_year y + 365 + leap_day y
unfolding march_days days_before_year
leaps_step y h = ground arith

next_year : (y : ℕ) → days_before_year (y + 1) ≡ march_days y
unfolding march_days days_before_year
next_year y = omega arith

-- What the months from March on are, for a day of the year.
abbrev month_of : ℕ → ℕ
month_of doy = let mp = (5 * doy + 2) / 153 in if ltb mp 10 then mp + 3 else mp - 9

abbrev day_of : ℕ → ℕ
day_of doy = let mp = (5 * doy + 2) / 153 in doy - (153 * mp + 2) / 5 + 1

-- The month and the day, up to the leap day, and where they are in the year.
right_date : ℕ → ℕ → ℕ → Bool
right_date doy m d =
    leb 1 m
    && (leb m 12
        && (leb 1 d
            && ((leb d (get_or month_lengths m 0) || (doy == 365 && (m == 2 && d == 29)))
                && (if leb m 2
                    then 306 + get_or month_starts m 0 + d == doy + 1
                    else get_or month_starts m 0 + d == doy + 60))))

month_right : ℕ → Bool
month_right doy = right_date doy (month_of doy) (day_of doy)

months_table : counterexample month_right 366 ≡ none
unfolding counterexample month_right right_date
months_table = refl

month_facts : (doy : ℕ) → doy < 366 → right_date doy (month_of doy) (day_of doy) ≡ true
unfolding month_right
month_facts doy h = no_counterexample month_right 366 doy months_table h

march_days-era :
    (e y r : ℕ)
    → y < 400
    → march_days (y + e * 400) + r ≡ e * 146097 + (365 * y + y / 4 - y / 100 + r)
unfolding march_days
march_days-era e y r h = omega arith

last_of_four :
    (doe : ℕ) → doe < 146097 → day_of_year doe (year_of_era doe) ≡ 365 → year_of_era doe % 4 ≡ 3
last_of_four doe h e = omega arith

last_of_hundred :
    (doe : ℕ)
    → doe < 146097
    → day_of_year doe (year_of_era doe) ≡ 365
    → year_of_era doe % 100 ≡ 99
    → year_of_era doe ≡ 399
last_of_hundred doe h e n = omega arith

leap_of_last :
    (e y : ℕ) → y < 400 → y % 4 ≡ 3 → (y % 100 ≡ 99 → y ≡ 399) → is_leap (y + e * 400 + 1) ≡ true
leap_of_last e y h f n = grind arith

-- What `civil_from_days` does with the days since 1 March of the year 0.
module _ (z : ℕ) where
  era : ℕ
  era = z / 146097

  doe : ℕ
  doe = z % 146097

  yoe : ℕ
  yoe = year_of_era doe

  doy : ℕ
  doy = day_of_year doe yoe

  split : z ≡ march_days (yoe + era * 400) + doy
  unfolding march_days era doe yoe doy
  split = omega (
    arith,
    march_days-era (z / 146097) (year_of_era (z % 146097))
        (day_of_year (z % 146097) (year_of_era (z % 146097)))
        (year_small (z % 146097) (omega arith)),
    year_starts (z % 146097) (omega arith),
  )

  doy_small : doy < 366
  unfolding era doe yoe doy
  doy_small = omega arith

  doy_last : doy ≡ 365 → is_leap (yoe + era * 400 + 1) ≡ true
  unfolding era doe yoe doy
  doy_last e =
      leap_of_last (z / 146097) (year_of_era (z % 146097)) (year_small _ (omega arith))
        (last_of_four _ (omega arith) e) (last_of_hundred _ (omega arith) e)

-- The date in the year that starts on 1 March of the year `y`.
abbrev year_at : ℕ → ℕ → ℕ
year_at y doy = if leb (month_of doy) 2 then y + 1 else y

right_date-IsDate :
    (y r m d : ℕ)
    → right_date r m d ≡ true
    → (r ≡ 365 → is_leap (y + 1) ≡ true)
    → IsDate (if leb m 2 then y + 1 else y) m d
unfolding days_in_month right_date
right_date-IsDate y r m d right last = record {
  month_in = ground (arith, right);
  day_in = ground (arith, right, last);
}

early_number :
    (y r m d : ℕ)
    → right_date r m d ≡ true
    → leb m 2 ≡ true
    → day_number (y + 1) m d + 305 ≡ march_days y + r
unfolding day_number days_before_month right_date
early_number y r m d right e =
    let at : 306 + get_or month_starts m 0 + d ≡ r + 1 = ground (arith, right, e) in
    rw e (omega (arith, at, next_year y))

late_number :
    (y r m d : ℕ)
    → right_date r m d ≡ true
    → leb m 2 ≡ false
    → 0 < y
    → day_number y m d + 305 ≡ march_days y + r
unfolding day_number days_before_month right_date
late_number y r m d right e positive =
    let at : get_or month_starts m 0 + d ≡ r + 60 = ground (arith, right, e) in
    rw e (omega (arith, at, leaps_step y positive))

right_date-day_number :
    (y r m d : ℕ)
    → right_date r m d ≡ true
    → 0 < y
    → day_number (if leb m 2 then y + 1 else y) m d + 305 ≡ march_days y + r
right_date-day_number y r m d right positive = elim (Bool-cases (leb m 2)) [
  | inl e ↦ rw e (early_number y r m d right e)
  | inr e ↦ rw e (late_number y r m d right e positive)
]

year_positive : (z : ℕ) → 146097 ≤ z → 0 < yoe z + era z * 400
unfolding era
year_positive z h = omega arith

shifted : (n w days : ℕ) → n + 305 ≡ w → days + 719468 ≡ w → n ≡ days + 719163
shifted n w days e f = omega arith

-- `civil_from_days` gives the Gregorian date that is that many days after 1 January 1970: a month
-- from 1 to 12, a day that this month has in this year, leap years counted, and the number of the
-- date is the number of days, counted from 1 January 1970, which is 719163.
pub civil_from_days_lem :
    (days : ℕ)
    → let (y, (m, d)) = civil_from_days days in IsDate y m d × (day_number y m d ≡ days + 719163)
unfolding civil_from_days era doe yoe doy
civil_from_days_lem days =
    let z = days + 719468 in
    let y = yoe z + era z * 400 in
    let right = month_facts (doy z) (doy_small z) in
    let positive : 0 < y = year_positive z (omega arith) in
    (
      right_date-IsDate y (doy z) (month_of (doy z)) (day_of (doy z)) right (doy_last z),
      shifted _ _ days
          (right_date-day_number y (doy z) (month_of (doy z)) (day_of (doy z)) right positive)
          (split z),
    )
