-- ===== src/Schedule.antt =====
-- control/schedule.go: cron schedules. A time is in nanoseconds since Go's zero time, which is midnight
-- on Monday, January 1 of year 1, and the calendar is that of Go's package time, in UTC.
pub mod First
use a4s.Prelude.{
  ℕ, zero, suc, ◌+◌, ◌*◌, ◌-◌, ◌/◌, ◌%◌, Bool, true, false, ◌&&◌, ◌||◌, not, Option, none, some,
  List, [], ◌∷◌, String, ◌==◌, if◌then◌else◌, ltb, leb, eqb, ℤ, pos, lt_ℤ, le_ℤ, Result, ok, err,
  ◌>>=◌, ◌>>◌, refuse, require,
}
use a4s.Types.World.{Time, is_zero_time}
use a4s.Types.Goal.{Schedule}

pub record CronSchedule : Type 0 where
  pub minutes : List ℕ
  pub hours : List ℕ
  pub days : List ℕ
  pub months : List ℕ
  pub weekdays : List ℕ

-- Nanoseconds in a minute.
abbrev pub minute : ℕ
minute = 60000000000

abbrev pub day_minutes : ℕ
day_minutes = 1440

-- Days since the zero time, in years of 365 or 366 days.
abbrev pub is_leap : ℕ → Bool
is_leap y = eqb (y % 4) 0 && (not (eqb (y % 100) 0) || eqb (y % 400) 0)

-- The days from the zero time to the start of a year.
abbrev pub days_before : ℕ → ℕ
days_before y = let n = y - 1 in n * 365 + n / 4 - n / 100 + n / 400

-- The year of a day, and the day's number in the year, from 0. The last century of four, and the
-- last year of four, is one day longer than the others.
unfoldable pub year_day : ℕ → ℕ × ℕ
year_day d =
    let n = d / 146097 in
    let d0 = d % 146097 in
    let c = d0 / 36524 - d0 / 36524 / 4 in
    let d1 = d0 - c * 36524 in
    let q = d1 / 1461 in
    let d2 = d1 % 1461 in
    let y = d2 / 365 - d2 / 365 / 4 in (n * 400 + c * 100 + q * 4 + y + 1, d2 - y * 365)

abbrev pub month_lengths : Bool → List ℕ
month_lengths leap =
    31 ∷ (if leap then 29 else 28) ∷ 31 ∷ 30 ∷ 31 ∷ 30 ∷ 31 ∷ 31 ∷ 30 ∷ 31 ∷ 30 ∷ 31 ∷ []

-- The month and the day of the month.
unfoldable pub month_day : List ℕ → (month day : ℕ) → ℕ × ℕ
month_day [] m d = (m, d + 1)
month_day (l ∷ ls) m d =
    let later = month_day ls (m + 1) (d - l) in if ltb d l then (m, d + 1) else later

unfoldable pub date_of : ℕ → ℕ × ℕ
unfolding year_day month_day
date_of d = let (y, n) = year_day d in month_day (month_lengths (is_leap y)) 1 n

-- Sunday is 0.
abbrev pub weekday_of : ℕ → ℕ
weekday_of d = (d + 1) % 7

abbrev pub contains : List ℕ → ℕ → Bool
contains [] want = false
contains (x ∷ xs) want = eqb x want || contains xs want

unfoldable pub count_values : List ℕ → ℕ
count_values [] = 0
count_values (_ ∷ xs) = suc (count_values xs)

-- `matchesDate`, of a day.
unfoldable pub matches_date : CronSchedule → ℕ → Bool
unfolding date_of count_values
matches_date c d =
    let (month, day) = date_of d in
    let day_restricted = not (eqb (count_values c.days) 31) in
    let weekday_restricted = not (eqb (count_values c.weekdays) 7) in
    let day_match = contains c.days day in
    let weekday_match = contains c.weekdays (weekday_of d) in
    if not (contains c.months month)
    then false
    else if day_restricted && weekday_restricted
    then day_match || weekday_match
    else if day_restricted
    then day_match
    else if weekday_restricted
    then weekday_match
    else true

-- `Matches`, of a minute since the zero time.
unfoldable pub matches_minute : CronSchedule → ℕ → Bool
unfolding matches_date
matches_minute c m =
    if not (contains c.minutes (m % 60)) || not (contains c.hours (m % day_minutes / 60))
    then false
    else matches_date c (m / day_minutes)

unfoldable pub matches : CronSchedule → Time → Bool
unfolding matches_minute
matches c at = matches_minute c (at / minute)

-- `AddDate(4, 0, 0)` of a minute: the same month and day four years later, where February 29 of a
-- year without one is March 1.
unfoldable pub four_years_on : ℕ → ℕ
unfolding year_day month_day
four_years_on m =
    let (y, n) = year_day (m / day_minutes) in
    let (month, day) = month_day (month_lengths (is_leap y)) 1 n in
    let shift = if ltb 2 month then (if is_leap (y + 4) then 1 else 0) else 0 in
    let past = if ltb 2 month then (if is_leap y then 1 else 0) else 0 in
    (days_before (y + 4) + (n + shift - past)) * day_minutes + m % day_minutes

-- What the loop of `Next` does with a candidate that does not match: the next midnight, or the next
-- minute.
abbrev pub advance : CronSchedule → ℕ → ℕ
advance c m =
    if not (matches_date c (m / day_minutes)) then (m / day_minutes + 1) * day_minutes else m + 1

-- How a search ends, or that it has not ended when the rounds that it was given are used up.
pub data Search : Type 0 where
  slot : ℕ → Search
  no_slot : Search
  unfinished : Search

-- The loop of `Next`, in minutes, for a number of rounds.
unfoldable pub next_from : (rounds : ℕ) → CronSchedule → (limit m : ℕ) → Search
unfolding matches_minute
next_from zero c limit m = Search.unfinished
next_from (suc rounds) c limit m = elim (ltb m limit) [
  | false ↦ Search.no_slot
  | true ↦ elim (matches_minute c m) [
    | true ↦ Search.slot m
    | false ↦ next_from rounds c limit (advance c m)
  ]
]

abbrev pub in_time : Search → Search
in_time (Search.slot m) = Search.slot (m * minute)
in_time s = s

-- The rounds are the minutes up to the limit, and the one that sees the limit.
unfoldable pub next : CronSchedule → Time → Search
unfolding next_from four_years_on
next c after =
    let m = after / minute + 1 in
    in_time (next_from (four_years_on m - m + 1) c (four_years_on m) m)

unfoldable pub due : CronSchedule → (now last_run : Time) → Bool
unfolding matches next
due c now last_run =
    let this = now / minute * minute in
    if is_zero_time last_run
    then matches c this
    else elim (next c last_run) [ Search.slot t ↦ leb t this | _ ↦ false ]

-- An hour, in nanoseconds.
abbrev pub default_run_deadline : ℤ
default_run_deadline = pos 3600000000000

unfoldable pub run_deadline : Option Schedule → ℤ
run_deadline none = default_run_deadline
run_deadline (some s) = if le_ℤ s.deadline (pos 0) then default_run_deadline else s.deadline

unfoldable pub required_completions : Option Schedule → ℤ
required_completions none = pos 1
required_completions (some s) = if le_ℤ s.completions (pos 0) then pos 1 else s.completions

unfoldable pub concurrency_or_default : Option Schedule → String
concurrency_or_default none = "forbid"
concurrency_or_default (some s) = if s.concurrency == "" then "forbid" else s.concurrency
