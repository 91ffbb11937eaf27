-- ===== src/QuickAdd/Dates.antt =====
-- The due dates of `^mon` to `^sun` and of `^feb29` and the like.
use task_man.Prelude.{
  ℕ, ◌+◌, ◌-◌, ◌%◌, ◌≤◌, ◌<◌, ◌≡◌, refl, ◌∙◌, arith, true, false, some, if◌then◌else◌,
}
use task_man.Prelude.Int.{pos, ◌+ℤ◌, int_laws}
use task_man.Text.{Text, lit, text_lt, text_eq}
use task_man.Calendar.{
  is_leap, before_year, before_month, get_utc_full_year, get_utc_month, get_utc_date, get_utc_day,
  month_start,
}
use task_man.Calendar.Fields.{date_utc-month, get_utc_month_unique, get_utc_date-eq}
use task_man.Calendar.Years.{before_year_mono}
use task_man.Period.{format_date}
use task_man.Period.Dates.{first_day, add_days-format_date, parse_date-format_date}
use task_man.Period.Order.{FourDigit, text_lt-format_date}
use task_man.QuickAdd.Words.{table_get, weekdays, months, resolve_weekday, resolve_month_day}

-- A weekday's name resolves to the first date from the base on that falls on it, for a base from
-- 0100-01-01 on.
pub resolve_weekday-format_date :
    (d idx : ℕ) (target : Text)
    → first_day ≤ d
    → idx < 7
    → table_get weekdays target ≡ some idx
    → (k : ℕ) × (resolve_weekday (format_date d) target ≡ some (format_date (d + k)))
      × (k < 7)
      × (get_utc_day (d + k) ≡ idx)
unfolding resolve_weekday get_utc_day
resolve_weekday-format_date d idx target h small e = (
  (idx + 7 - (d + 6) % 7) % 7,
  rw (e, resolve_weekday, parse_date-format_date d h, add_days-format_date d _ h, move),
  omega arith,
  omega arith,
)
  where
    move : pos d +ℤ pos ((idx + 7 - (d + 6) % 7) % 7) ≡ pos (d + (idx + 7 - (d + 6) % 7) % 7)
    move = omega int_laws

feb : table_get months (lit "feb") ≡ some 1
unfolding table_get text_eq
feb = refl

-- The first of March, in a leap year and in another.
march : (y : ℕ) → before_month (is_leap y) 2 ≡ (if is_leap y then 60 else 59)
unfolding before_month
march y = ground arith

april : (y : ℕ) → 90 ≤ before_month (is_leap y) 3
unfolding before_month
april y = ground arith

thousand : before_year 1000 ≡ 365243
unfolding before_year
thousand = refl

after_leap : (y : ℕ) → is_leap y ≡ true → is_leap (y + 1) ≡ false
unfolding is_leap
after_leap y h = ground arith

january_length : (y : ℕ) → before_month (is_leap y) 1 ≡ 31
unfolding before_month
january_length y = refl

leap_day : (y : ℕ) → is_leap y ≡ true → get_utc_month (before_year y + 31 + 28) ≡ 1
leap_day y h =
    (get_utc_month_unique y 1 (before_year y + 31 + 28) (omega arith)
      (omega (arith, january_length y)) (ground (arith, march y))).1

-- In a leap year of 1000 to 9998, from the 1st of March on, `^feb29` rolls over to a date that does not exist, and
-- the due date is the 1st of March of the next year.
pub resolve_month_day-feb29 :
    (y d : ℕ)
    → is_leap y ≡ true
    → FourDigit d
    → 1000 ≤ y
    → y < 9999
    → get_utc_full_year d ≡ y
    → before_year y + 60 ≤ d
    → (e : ℕ) × (resolve_month_day (format_date d) (lit "feb") 29 ≡ some (format_date e))
      × (get_utc_full_year e ≡ y + 1)
      × (get_utc_month e ≡ 2)
      × (get_utc_date e ≡ 1)
unfolding resolve_month_day
resolve_month_day-feb29 y d leap hd lo hi year late = (
  rolled,
  rw (
    feb,
    resolve_month_day,
    parse_date-format_date d (omega arith),
    year,
    date_utc-month y 1 28 (omega arith) (omega arith),
    date_utc-month (y + 1) 1 28 (omega arith) (omega arith),
    january_length y,
    january_length (y + 1),
    leap_day y leap,
    earlier,
  ),
  fields.0,
  fields.1,
  first,
)
  where
    candidate : ℕ
    candidate = before_year y + 31 + 28

    rolled : ℕ
    rolled = before_year (y + 1) + 31 + 28

    earlier : text_lt (format_date candidate) (format_date d) ≡ true
    earlier =
        text_lt-format_date candidate d
          (omega (arith, thousand, before_year_mono 1000 y lo), omega arith) hd
        ∙ ground arith

    fields : (get_utc_full_year rolled ≡ y + 1) × (get_utc_month rolled ≡ 2)
    fields =
        get_utc_month_unique (y + 1) 2 rolled (omega arith)
          (ground (arith, march (y + 1), after_leap y leap)) (ground (arith, april (y + 1)))

    start : month_start rolled ≡ before_year (y + 1) + 59
    start =
        unfold month_start in
        rw (fields.0, fields.1) (ground (arith, march (y + 1), after_leap y leap))

    first : get_utc_date rolled ≡ 1
    first = omega (arith, get_utc_date-eq rolled, start)
