-- ===== src/Period/Weeks.antt =====
-- ISO weeks: the week of a date, the Monday of a week, its seven dates, and moving by weeks.
use task_man.Prelude.{
  ℕ, zero, suc, ◌+◌, ◌-◌, ◌*◌, ◌/◌, ◌%◌, ◌≤◌, ◌≡◌, ◌↔◌, refl, sym, ap, ◌∙◌, arith, List, [], ◌∷◌,
  some, ◌>>=◌,
}
use native.Mathlib.Nat.{add-zero}
use task_man.Prelude.Int.{ℤ, pos, ◌+ℤ◌, ◌-ℤ◌, int_laws, mul_ℤ, pos_part, neg_part}
use task_man.Text.{Text}
use task_man.Text.Laws.{split_pair-append, split_pair-last}
use task_man.Text.Decimal.{show, pad2}
use task_man.Text.Decimal.Laws.{Digits-Avoids, show-Digits, pad2-Digits, number-show, number-pad2}
use task_man.Calendar.{before_year, before_month, get_utc_full_year, date_utc, month_index_start}
use task_man.Calendar.Years.{full_year_holds, before_year_bounds}
use task_man.Calendar.Fields.{
  set_utc_date_moves, set_utc_date_moves_back, utc_year_late, full_year_late,
}
use task_man.Period.{
  dash, week_parts_of, format_date, iso_day, week_no, week_text, to_iso_week, iso_week_monday,
  week_dates_from, week_dates, add_weeks,
}
use task_man.Period.Dates.{first_day, parse_date-format_date, dash_is_no_digit}

-- The Monday on or before day d, and the Thursday of its week.
abbrev pub monday_of : ℕ → ℕ
monday_of d = d - (d + 5) % 7

abbrev pub thursday_of : ℕ → ℕ
thursday_of d = monday_of d + 3

-- The text of the ISO week with the Thursday t.
abbrev pub week_of_thursday : ℕ → Text
week_of_thursday t =
    week_text (get_utc_full_year t) ((t - before_year (get_utc_full_year t) + 7) / 7)

pub iso_day-eq : (d : ℕ) → iso_day d ≡ (d + 5) % 7 + 1
unfolding iso_day
iso_day-eq d = ground arith

-- A day of January.
january : (y k : ℕ) → 100 ≤ y → date_utc y (pos 0) (pos (suc k)) ≡ some (before_year y + k)
unfolding date_utc month_index_start before_month
january y k h = rw (utc_year_late y h, month, year, month0, day)
  where
    month : pos (y * 12) +ℤ pos 0 ≡ pos (y * 12)
    month = omega int_laws

    year : y * 12 / 12 ≡ y
    year = omega arith

    month0 : y * 12 % 12 ≡ 0
    month0 = omega arith

    day : pos (before_year y + 0) +ℤ pos (suc k) -ℤ pos 1 ≡ pos (before_year y + k)
    day = omega int_laws

january_first : (y : ℕ) → 100 ≤ y → date_utc y (pos 0) (pos 1) ≡ some (before_year y)
january_first y h = rw add-zero at (january y 0 h)

week_no-late : (d y : ℕ) → y ≤ d → week_no d y ≡ some ((d - y + 7) / 7)
unfolding week_no
week_no-late d y h = ground arith

-- The ISO week of a date is that of the Thursday in its week.
pub to_iso_week-format_date :
    (d : ℕ)
    → first_day + 7 ≤ d
    → to_iso_week (format_date d) ≡ some (week_of_thursday (thursday_of d))
unfolding to_iso_week
to_iso_week-format_date d h = rw (
  parse_date-format_date d (omega arith),
  set_utc_date_moves d (pos 4 -ℤ pos (iso_day d)),
  move,
  january_first (get_utc_full_year (thursday_of d)) (full_year_late (thursday_of d) (omega arith)),
  week_no-late (thursday_of d) (before_year (get_utc_full_year (thursday_of d)))
      (full_year_holds (thursday_of d)).0,
)
  where
    move : pos d +ℤ (pos 4 -ℤ pos (iso_day d)) ≡ pos (thursday_of d)
    move = omega (int_laws, iso_day-eq d)

-- The Monday of week 1.
abbrev week1 : ℕ → ℕ
week1 y = monday_of (before_year y + 3)

week_parts : (y w : ℕ) → week_parts_of (week_text y w) ≡ show y ∷ pad2 w ∷ []
week_parts y w = rw (
  split_pair-append dash b'W' (show y) (pad2 w)
      (Digits-Avoids dash (show y) dash_is_no_digit (show-Digits y)),
  split_pair-last dash b'W' (pad2 w) (Digits-Avoids dash (pad2 w) dash_is_no_digit (pad2-Digits w)),
)

iso_week_monday-week_text :
    (y w : ℕ)
    → 100 ≤ y
    → 7 ≤ before_year y
    → iso_week_monday (week_text y (suc w)) ≡ some (week1 y + w * 7)
unfolding iso_week_monday
iso_week_monday-week_text y w h big = rw (
  week_parts y (suc w),
  number-show y,
  number-pad2 (suc w),
  january y 3 h,
  set_utc_date_moves_back (before_year y + 3) (pos (iso_day (before_year y + 3)) -ℤ pos 1),
  first,
  set_utc_date_moves (week1 y) (mul_ℤ (pos (suc w) -ℤ pos 1) 7),
  weeks,
)
  where
    first : pos (before_year y + 3) -ℤ (pos (iso_day (before_year y + 3)) -ℤ pos 1) ≡ pos (week1 y)
    first = omega (int_laws, iso_day-eq (before_year y + 3))

    one : pos (suc w) -ℤ pos 1 ≡ pos w
    one = omega int_laws

    weeks : pos (week1 y) +ℤ mul_ℤ (pos (suc w) -ℤ pos 1) 7 ≡ pos (week1 y + w * 7)
    weeks = rw one (omega int_laws)

-- The Monday of a date's week text is the Monday on or before the date.
iso_week_monday-week_of_thursday :
    (d : ℕ)
    → first_day + 7 ≤ d
    → iso_week_monday (week_of_thursday (thursday_of d)) ≡ some (monday_of d)
iso_week_monday-week_of_thursday d h =
    rw number (
      iso_week_monday-week_text y k late (omega (arith, late, before_year_bounds y)) ∙ ap some same)
  where
    y : ℕ
    y = get_utc_full_year (thursday_of d)

    k : ℕ
    k = (thursday_of d - before_year y) / 7

    late : 100 ≤ y
    late = full_year_late (thursday_of d) (omega arith)

    same : week1 y + k * 7 ≡ monday_of d
    same = omega (arith, full_year_holds (thursday_of d))

    number : (thursday_of d - before_year y + 7) / 7 ≡ suc k
    number = omega arith

-- From a date to its week and to the Monday of that week: the Monday on or before the date, for
-- dates from 0100-01-08 on.
pub to_iso_week-iso_week_monday :
    (d : ℕ)
    → first_day + 7 ≤ d
    → (to_iso_week (format_date d) >>= iso_week_monday) ≡ some (monday_of d)
to_iso_week-iso_week_monday d h =
    rw (to_iso_week-format_date d h) (iso_week_monday-week_of_thursday d h)

some-inj : {a b : ℕ} → some a ≡ some b → a ≡ b
some-inj e = cc

-- Two dates from 0100-01-08 on have one week text just when the same Monday is the last on or before
-- both.
pub to_iso_week-eq_iff :
    (d e : ℕ)
    → first_day + 7 ≤ d
    → first_day + 7 ≤ e
    → (to_iso_week (format_date d) ≡ to_iso_week (format_date e)) ↔ (monday_of d ≡ monday_of e)
to_iso_week-eq_iff d e hd he = (forth, back)
  where
    forth : to_iso_week (format_date d) ≡ to_iso_week (format_date e) → monday_of d ≡ monday_of e
    forth p = some-inj (
        sym (to_iso_week-iso_week_monday d hd)
        ∙ (ap (λ w. w >>= iso_week_monday) p ∙ to_iso_week-iso_week_monday e he))

    back : monday_of d ≡ monday_of e → to_iso_week (format_date d) ≡ to_iso_week (format_date e)
    back p =
        to_iso_week-format_date d hd
        ∙ (ap (λ m. some (week_of_thursday (m + 3))) p ∙ sym (to_iso_week-format_date e he))

-- The texts of `left` days from day d on.
abbrev pub date_texts : ℕ → ℕ → List Text
date_texts d zero = []
date_texts d (suc left) = format_date d ∷ date_texts (suc d) left

week_dates_from_lem :
    (left monday i : ℕ) → week_dates_from monday i left ≡ some (date_texts (monday + i) left)
unfolding week_dates_from
week_dates_from_lem zero monday i = refl
week_dates_from_lem (suc left) monday i =
    rw (set_utc_date_moves monday (pos i), day, week_dates_from_lem left monday (suc i), next)
  where
    day : pos monday +ℤ pos i ≡ pos (monday + i)
    day = omega int_laws

    next : monday + suc i ≡ suc (monday + i)
    next = omega arith

-- For a date from 0100-01-08 on, the seven dates of its week are the seven days from its Monday on.
pub week_dates-to_iso_week :
    (d : ℕ)
    → first_day + 7 ≤ d
    → (to_iso_week (format_date d) >>= week_dates) ≡ some (date_texts (monday_of d) 7)
unfolding week_dates
week_dates-to_iso_week d h = rw (
  to_iso_week-format_date d h,
  iso_week_monday-week_of_thursday d h,
  week_dates_from_lem 7 (monday_of d) 0,
  add-zero,
)

-- Moving a date's week by k weeks gives the week of the date 7 * k days on, where both dates are from
-- 0100-01-15 on.
pub add_weeks-to_iso_week :
    (d e : ℕ) (k : ℤ)
    → first_day + 14 ≤ d
    → first_day + 14 ≤ e
    → pos d +ℤ mul_ℤ k 7 ≡ pos e
    → (to_iso_week (format_date d) >>= λ w. add_weeks w k) ≡ to_iso_week (format_date e)
unfolding add_weeks
add_weeks-to_iso_week d e k hd he there =
    rw
      (
        to_iso_week-format_date d (omega arith),
        iso_week_monday-week_of_thursday d (omega arith),
        set_utc_date_moves (monday_of d) (mul_ℤ k 7),
        moved,
      )
      ((to_iso_week-eq_iff (monday_of e) e (omega arith) (omega arith)).1 (omega arith))
  where
    moved : pos (monday_of d) +ℤ mul_ℤ k 7 ≡ pos (monday_of e)
    moved = omega (int_laws, ap pos_part there, ap neg_part there)
