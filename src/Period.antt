-- ===== src/Period.antt =====
-- ui/src/period.ts: periods as texts, daily "YYYY-MM-DD", ISO weekly "YYYY-Www", monthly "YYYY-MM".
-- `none` is what JavaScript would call an invalid date, or a date before 0000-01-01. The wall
-- clock that `new Date()` reads is an argument, and so is the locale of `toLocaleDateString`.
pub mod Dates
pub mod Order
pub mod Weeks
pub mod Months
mod Tests
use task_man.Prelude.{
  ℕ, zero, suc, ◌+◌, ◌-◌, ◌*◌, ◌/◌, Bool, true, false, ◌||◌, List, [], ◌∷◌, ◌++◌, Option, none,
  some, leb, ◌==◌, if◌then◌else◌, get_elem?, take, ◌>>=◌, get_or,
}
use task_man.Prelude.Int.{ℤ, pos, negsuc, ◌+ℤ◌, ◌-ℤ◌, mul_ℤ}
use task_man.Text.{Text, lit, text_eq, text_lt, is_empty, to_upper_case, split_where, split_pair}
use task_man.Text.Decimal.{show_fuel, show, pad2, value_from, number}
use task_man.Calendar.{
  get_utc_full_year, get_utc_month, get_utc_date, get_utc_day, set_utc_date, date_utc,
}

-- The local date that the wall clock shows; January is month 0.
pub record Now : Type 0 where
  pub full_year : ℕ
  pub month : ℕ
  pub date : ℕ

abbrev pub dash : ℕ
dash = b'-'

abbrev pub number_at : List Text → ℕ → Option ℕ
number_at parts i = get_elem? parts i >>= number

abbrev pub parts_of : Text → List Text
parts_of s = split_where (λ c. c == dash) s

abbrev pub week_parts_of : Text → List Text
week_parts_of s = split_pair dash b'W' s

unfoldable pub parse_date : Text → Option ℕ
parse_date s = do
  y ← number_at (parts_of s) 0
  m ← number_at (parts_of s) 1
  d ← number_at (parts_of s) 2
  date_utc y (pos m -ℤ pos 1) (pos d)

unfoldable pub format_date : ℕ → Text
format_date d =
    show (get_utc_full_year d)
    ++ dash ∷ (pad2 (get_utc_month d + 1) ++ dash ∷ pad2 (get_utc_date d))

unfoldable pub today : Now → Text
today now = show now.full_year ++ dash ∷ (pad2 (now.month + 1) ++ dash ∷ pad2 now.date)

unfoldable pub add_days : Text → ℤ → Option Text
add_days s delta = do
  d ← parse_date s
  moved ← set_utc_date d (pos (get_utc_date d) +ℤ delta)
  some (format_date moved)

-- `d.getUTCDay() || 7`: Monday is 1, Sunday 7.
unfoldable pub iso_day : ℕ → ℕ
unfolding get_utc_day
iso_day d = let k = get_utc_day d in if k == 0 then 7 else k

-- `Math.ceil((d - yearStart + 1) / 7)` in days; `none` where d is before yearStart, which is only
-- for the years up to 99, as `Date.UTC` takes them for others.
unfoldable pub week_no : ℕ → ℕ → Option ℕ
week_no d year_start = if leb year_start d then some ((d - year_start + 7) / 7) else none

abbrev pub week_text : ℕ → ℕ → Text
week_text year week = show year ++ dash ∷ b'W' ∷ pad2 week

unfoldable pub to_iso_week : Text → Option Text
to_iso_week s = do
  d ← parse_date s
  thursday ← set_utc_date d (pos (get_utc_date d) +ℤ (pos 4 -ℤ pos (iso_day d)))
  year_start ← date_utc (get_utc_full_year thursday) (pos 0) (pos 1)
  week ← week_no thursday year_start
  some (week_text (get_utc_full_year thursday) week)

unfoldable pub current_week : Now → Option Text
unfolding to_iso_week today
current_week now = to_iso_week (today now)

unfoldable pub iso_week_monday : Text → Option ℕ
iso_week_monday s = do
  year ← number_at (week_parts_of s) 0
  week ← number_at (week_parts_of s) 1
  jan4 ← date_utc year (pos 0) (pos 4)
  week1_monday ← set_utc_date jan4 (pos (get_utc_date jan4) -ℤ (pos (iso_day jan4) -ℤ pos 1))
  set_utc_date week1_monday (pos (get_utc_date week1_monday) +ℤ mul_ℤ (pos week -ℤ pos 1) 7)

-- The loop of `weekDates` at i, with `left` rounds to go.
unfoldable pub week_dates_from : ℕ → ℕ → ℕ → Option (List Text)
week_dates_from monday i zero = some []
week_dates_from monday i (suc left) =
    let rest = week_dates_from monday (suc i) left in
    do
      d ← set_utc_date monday (pos (get_utc_date monday) +ℤ pos i)
      later ← rest
      some (format_date d ∷ later)

unfoldable pub week_dates : Text → Option (List Text)
unfolding week_dates_from iso_week_monday
week_dates s = do monday ← iso_week_monday s; week_dates_from monday 0 7

unfoldable pub add_weeks : Text → ℤ → Option Text
add_weeks s delta = do
  monday ← iso_week_monday s
  moved ← set_utc_date monday (pos (get_utc_date monday) +ℤ mul_ℤ delta 7)
  to_iso_week (format_date moved)

unfoldable pub current_month : Now → Text
unfolding today
current_month now = take 7 (today now)

unfoldable pub month_text : ℕ → Text
month_text d = show (get_utc_full_year d) ++ dash ∷ pad2 (get_utc_month d + 1)

unfoldable pub add_months : Text → ℤ → Option Text
add_months s delta = do
  y ← number_at (parts_of s) 0
  m ← number_at (parts_of s) 1
  d ← date_utc y (pos m -ℤ pos 1 +ℤ delta) (pos 1)
  some (month_text d)

-- An absent due date is the empty text here, as both are falsy.
unfoldable pub is_overdue : Now → Text → Text → Bool
unfolding today
is_overdue now due_date status =
    if is_empty due_date
    then false
    else if text_eq status (lit "done") || text_eq status (lit "cancelled")
    then false
    else text_lt due_date (today now)

-- The options that the code gives to `toLocaleDateString`.
pub data LabelStyle : Type 0 where
  weekday_year_month_day weekday_month_day month_day long_month_year short_month_year long_weekday
        short_month :
      LabelStyle

module _ (locale : LabelStyle → ℕ → Text) where
  abbrev pub label_date : LabelStyle → Text → Option Text
  label_date style s = do d ← parse_date s; some (locale style d)

  unfoldable pub format_day_label : Text → Option Text
  format_day_label s = label_date weekday_year_month_day s

  unfoldable pub format_short_day_label : Text → Option Text
  format_short_day_label s = label_date weekday_month_day s

  unfoldable pub format_compact_date : Text → Option Text
  format_compact_date s = label_date month_day s

  unfoldable pub format_week_label : Text → Option Text
  format_week_label s = do
    monday ← iso_week_monday s
    sunday ← set_utc_date monday (pos (get_utc_date monday) +ℤ pos 6)
    week ← get_elem? (week_parts_of s) 1
    some (
        lit "Week "
        ++ (week
            ++ (lit " · " ++ (locale month_day monday ++ (lit " – " ++ locale month_day sunday)))))

  abbrev pub label_month : LabelStyle → Text → Option Text
  label_month style s = do
    y ← number_at (parts_of s) 0
    m ← number_at (parts_of s) 1
    d ← date_utc y (pos m -ℤ pos 1) (pos 1)
    some (locale style d)

  unfoldable pub format_month_label : Text → Option Text
  format_month_label s = label_month long_month_year s

  unfoldable pub format_month_short : Text → Option Text
  format_month_short s = label_month short_month_year s

  unfoldable pub format_day_eyebrow : Text → Option Text
  format_day_eyebrow s = do
    weekday ← label_date long_weekday s
    compact ← format_compact_date s
    some (weekday ++ (lit " · " ++ compact))

  unfoldable pub format_day_badge_period : Now → Text → Option Text
  unfolding today
  format_day_badge_period now s = do
    compact ← format_compact_date s
    some (if text_eq s (today now) then lit "Today · " ++ compact else compact)

  unfoldable pub format_week_range_upper : Text → Option Text
  format_week_range_upper s = do
    monday ← iso_week_monday s
    sunday ← set_utc_date monday (pos (get_utc_date monday) +ℤ pos 6)
    let month = λ (d : ℕ). to_upper_case (locale short_month d)
    let day = λ (d : ℕ). show (get_utc_date d)
    let front = month monday ++ lit " " ++ day monday ++ lit "–"
    some (
        if get_utc_month monday == get_utc_month sunday
        then front ++ day sunday
        else front ++ month sunday ++ lit " " ++ day sunday)

-- `weekStr.split("-W")[1] ?? weekStr`
unfoldable pub week_number_text : Text → Text
week_number_text s = get_or (get_elem? (week_parts_of s) 1) s

unfoldable pub format_week_short : Text → Text
unfolding week_number_text
format_week_short s = lit "W" ++ week_number_text s

-- An invalid current week equals no text.
unfoldable pub format_week_badge_period : Now → Text → Text
unfolding week_number_text
format_week_badge_period now s =
    let this_week : Bool = elim (current_week now) [ none ↦ false | some w ↦ text_eq s w ] in
    if this_week then lit "This week · W" ++ week_number_text s else lit "W" ++ week_number_text s

-- What a test by evaluation unfolds.
unfoldable pub period_run : Unit {0}
unfolding parse_date format_date add_days iso_day week_no to_iso_week iso_week_monday week_dates
    add_weeks current_month current_week month_text add_months is_overdue show_fuel show pad2
    value_from number
period_run = tt
