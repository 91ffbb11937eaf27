-- ===== src/Calendar.antt =====
-- JavaScript's `Date` as ui/src/period.ts uses it: always at UTC midnight, so a whole number of
-- days. Day 0 is 0000-01-01 of the proleptic Gregorian calendar. `none` is a date before that day
-- or one built from parts that are no numbers; the program has neither.
pub mod Years
pub mod Fields
use task_man.Prelude.{
  ℕ, zero, suc, ◌+◌, ◌-◌, ◌*◌, ◌/◌, ◌%◌, Bool, true, false, not, Option, none, some, ltb, leb, ◌==◌,
  if◌then◌else◌, ◌>>=◌,
}
use task_man.Prelude.Int.{ℤ, pos, negsuc, ◌+ℤ◌, ◌-ℤ◌}

unfoldable pub is_leap : ℕ → Bool
is_leap y = if not (y % 4 == 0) then false else if not (y % 100 == 0) then true else y % 400 == 0

unfoldable pub days_in_year : ℕ → ℕ
unfolding is_leap
days_in_year y = if is_leap y then 366 else 365

-- The days before January 1st of the year.
unfoldable pub before_year : ℕ → ℕ
before_year y = y * 365 + (y + 3) / 4 + (y + 399) / 400 - (y + 99) / 100

-- The days before the month, in a common or a leap year; January is month 0.
unfoldable pub before_month : Bool → ℕ → ℕ
before_month leap m =
    let extra : ℕ = if leap then 1 else 0 in
    if m == 0
    then 0
    else if m == 1
    then 31
    else if m == 2
    then 59 + extra
    else if m == 3
    then 90 + extra
    else if m == 4
    then 120 + extra
    else if m == 5
    then 151 + extra
    else if m == 6
    then 181 + extra
    else if m == 7
    then 212 + extra
    else if m == 8
    then 243 + extra
    else if m == 9
    then 273 + extra
    else if m == 10
    then 304 + extra
    else if m == 11
    then 334 + extra
    else 365 + extra

-- The month with the n-th day (from 0) of a year.
unfoldable pub month_at : Bool → ℕ → ℕ
unfolding before_month
month_at leap n =
    if ltb n (before_month leap 1)
    then 0
    else if ltb n (before_month leap 2)
    then 1
    else if ltb n (before_month leap 3)
    then 2
    else if ltb n (before_month leap 4)
    then 3
    else if ltb n (before_month leap 5)
    then 4
    else if ltb n (before_month leap 6)
    then 5
    else if ltb n (before_month leap 7)
    then 6
    else if ltb n (before_month leap 8)
    then 7
    else if ltb n (before_month leap 9)
    then 8
    else if ltb n (before_month leap 10)
    then 9
    else if ltb n (before_month leap 11)
    then 10
    else 11

-- From a year that is not too late, up to the year that holds day n.
unfoldable pub climb : ℕ → ℕ → ℕ → ℕ
climb zero y n = y
climb (suc f) y n =
    let later = climb f (y + 1) n in if leb (before_year (y + 1)) n then later else y

unfoldable pub get_utc_full_year : ℕ → ℕ
get_utc_full_year n = climb (suc n) (n / 366) n

unfoldable pub day_of_year : ℕ → ℕ
day_of_year n = n - before_year (get_utc_full_year n)

unfoldable pub get_utc_month : ℕ → ℕ
get_utc_month n = month_at (is_leap (get_utc_full_year n)) (day_of_year n)

-- The first day of the month that holds day n.
unfoldable pub month_start : ℕ → ℕ
month_start n =
    before_year (get_utc_full_year n)
    + before_month (is_leap (get_utc_full_year n)) (get_utc_month n)

unfoldable pub get_utc_date : ℕ → ℕ
get_utc_date n = n - month_start n + 1

-- 0 is Sunday; 0000-01-01 was a Saturday.
unfoldable pub get_utc_day : ℕ → ℕ
get_utc_day n = (n + 6) % 7

abbrev pub nat_of : ℤ → Option ℕ
nat_of (pos n) = some n
nat_of (negsuc n) = none

-- `d.setUTCDate(k)`: day k of the month that holds n, running over into other months.
unfoldable pub set_utc_date : ℕ → ℤ → Option ℕ
set_utc_date n k = nat_of (pos (month_start n) +ℤ k -ℤ pos 1)

-- The year as `Date.UTC` reads it: 0 to 99 stand for 1900 to 1999.
unfoldable pub utc_year : ℕ → ℕ
utc_year y = if leb y 99 then 1900 + y else y

-- The first day of the i-th month since January of year 0.
unfoldable pub month_index_start : ℕ → ℕ
month_index_start i = before_year (i / 12) + before_month (is_leap (i / 12)) (i % 12)

-- `new Date(Date.UTC(year, month, day))`: months and days run over.
unfoldable pub date_utc : ℕ → ℤ → ℤ → Option ℕ
date_utc year month day = do
  i ← nat_of (pos (utc_year year * 12) +ℤ month)
  nat_of (pos (month_index_start i) +ℤ day -ℤ pos 1)

-- What a test by evaluation unfolds.
unfoldable pub calendar_run : Unit {0}
unfolding is_leap before_year before_month month_at climb get_utc_full_year day_of_year
    get_utc_month month_start get_utc_date get_utc_day set_utc_date utc_year month_index_start
    date_utc ◌+ℤ◌ ◌-ℤ◌
calendar_run = tt
