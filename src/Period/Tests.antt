-- ===== src/Period/Tests.antt =====
-- Dates and weeks by evaluation, and the theorems at concrete dates.
use task_man.Prelude.{ℕ, ◌≡◌, ◌↔◌, refl, arith, true, not, ◌&&◌, some, ◌>>=◌}
use task_man.Prelude.Int.{pos, negsuc}
use task_man.Text.{lit}
use task_man.Calendar.{calendar_run}
use task_man.Period.{
  period_run, Now, parse_date, format_date, add_days, to_iso_week, iso_week_monday, add_weeks,
  add_months, is_overdue,
}
use task_man.Text.{text_run}
use task_man.Period.Dates.{parse_date-format_date}
use task_man.Period.Weeks.{monday_of, to_iso_week-iso_week_monday, to_iso_week-eq_iff}
use task_man.Period.Order.{Shows, is_closed, is_overdue-format_date}

run : Unit {0}
unfolding calendar_run period_run text_run
run = tt

date_tests :
    (parse_date (lit "2026-07-08") ≡ some 740170)
    × (add_days (lit "2024-02-28") (pos 1) ≡ some (lit "2024-02-29"))
    × (add_days (lit "2026-01-01") (negsuc 0) ≡ some (lit "2025-12-31"))
    × (to_iso_week (lit "2027-01-01") ≡ some (lit "2026-W53"))
    × (to_iso_week (lit "2024-12-30") ≡ some (lit "2025-W01"))
    × (add_weeks (lit "2026-W53") (pos 1) ≡ some (lit "2027-W01"))
    × (add_months (lit "2026-01") (negsuc 0) ≡ some (lit "2025-12"))
unfolding run
date_tests = (refl, refl, refl, refl, refl, refl, refl)

-- 2026-07-08, a Wednesday, and the wall clock on it.
abbrev wednesday : ℕ
wednesday = 740170

abbrev clock : Now
clock = record { full_year = 2026; month = 6; date = 8 }

clock-Shows : Shows clock wednesday
unfolding calendar_run
clock-Shows = record { year_is = refl; month_is = refl; date_is = refl }

parse_date-format_date_example : parse_date (format_date wednesday) ≡ some wednesday
parse_date-format_date_example = parse_date-format_date wednesday (omega arith)

to_iso_week-iso_week_monday_example :
    (to_iso_week (format_date wednesday) >>= iso_week_monday) ≡ some 740168
to_iso_week-iso_week_monday_example = to_iso_week-iso_week_monday wednesday (omega arith)

to_iso_week-eq_iff_example :
    (to_iso_week (format_date wednesday) ≡ to_iso_week (format_date 740174))
    ↔ (monday_of wednesday ≡ monday_of 740174)
to_iso_week-eq_iff_example = to_iso_week-eq_iff wednesday 740174 (omega arith) (omega arith)

is_overdue-format_date_example :
    is_overdue clock (format_date 740100) (lit "todo") ≡ (not (is_closed (lit "todo")) && true)
is_overdue-format_date_example =
    is_overdue-format_date clock wednesday 740100 (lit "todo") clock-Shows (omega arith)
      (omega arith)
