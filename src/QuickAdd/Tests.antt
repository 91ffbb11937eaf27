-- ===== src/QuickAdd/Tests.antt =====
-- Lines typed into the quick-add, by evaluation, and the theorems at concrete lines.
use task_man.Prelude.{ℕ, ◌+◌, ◌≡◌, refl, arith, [], ◌∷◌, some, none}
use task_man.Text.{Text, lit, text_run, join}
use task_man.Calendar.{calendar_run, get_utc_full_year, get_utc_month, get_utc_date}
use task_man.Period.{period_run, format_date}
use task_man.Api.Types.{Horizon, high, inherited, RecurrenceFreq}
use task_man.QuickAdd.Words.{resolve_month_day}
use task_man.QuickAdd.{nothing_parsed, quick_add_run, parse_quick_add}
use task_man.QuickAdd.Title.{title_words_of, title-parse_quick_add, parse_quick_add_again}
use task_man.QuickAdd.Fields.{AreTags, tags-AreTags}
use task_man.QuickAdd.Dates.{resolve_month_day-feb29}

run : Unit {0}
unfolding calendar_run period_run text_run quick_add_run
run = tt

abbrev base : Text
base = lit "2026-07-08"

-- The example of the manual.
ship : parse_quick_add (lit "Ship  release !HIGH ^fri *weekly #Ops, @Ann") base ≡ record {
  title = lit "Ship release";
  priority = some high;
  due_date = some (lit "2026-07-10");
  due_label = some (lit "Fri");
  assignee_name = some (lit "Ann");
  recurrence = some (record { freq = RecurrenceFreq.weekly; weekdays = none });
  horizon = some Horizon.weekly;
  tags = lit "ops" ∷ [];
}
unfolding run
ship = refl

due_tests :
    ((parse_quick_add (lit "^jul1") base).due_date ≡ some (lit "2027-07-01"))
    × ((parse_quick_add (lit "^jul12") base).due_date ≡ some (lit "2026-07-12"))
    × ((parse_quick_add (lit "^tmrw") base).due_date ≡ some (lit "2026-07-09"))
    × ((parse_quick_add (lit "^feb30") base).title ≡ lit "^feb30")
    × ((parse_quick_add (lit "^2026-02-29") base).title ≡ lit "^2026-02-29")
    × ((parse_quick_add (lit "^feb29") (lit "2024-03-01")).due_date ≡ some (lit "2025-03-01"))
unfolding run
due_tests = (refl, refl, refl, refl, refl, refl)

-- A name that every object inherits is taken for a priority.
constructor_test :
    (parse_quick_add (lit "!constructor") base).priority ≡ some (inherited (lit "constructor"))
unfolding run
constructor_test = refl

title-parse_quick_add_example :
    (parse_quick_add (lit "a !high b") base).title
    ≡ join (lit " ") (title_words_of base (lit "a !high b"))
title-parse_quick_add_example = title-parse_quick_add base (lit "a !high b")

parse_quick_add_again_example :
    parse_quick_add (parse_quick_add (lit "a #x ! b") base).title base
    ≡ record nothing_parsed { title = (parse_quick_add (lit "a #x ! b") base).title }
parse_quick_add_again_example = parse_quick_add_again base (lit "a #x ! b")

tags-AreTags_example : AreTags (parse_quick_add (lit "#a #b #a #daily") base).tags
tags-AreTags_example = tags-AreTags base (lit "#a #b #a #daily")

-- The base 2024-03-01.
resolve_month_day-feb29_example :
    (e : ℕ) × (resolve_month_day (format_date 739311) (lit "feb") 29 ≡ some (format_date e))
    × (get_utc_full_year e ≡ 2024 + 1)
    × (get_utc_month e ≡ 2)
    × (get_utc_date e ≡ 1)
unfolding run
resolve_month_day-feb29_example =
    resolve_month_day-feb29 2024 739311 refl (omega arith) (omega arith) (omega arith) refl
      (omega arith)
