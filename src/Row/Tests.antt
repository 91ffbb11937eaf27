-- ===== src/Row/Tests.antt =====
-- A run of a row, and the witness of its theorem.
use task_man.Prelude.{ℕ, ◌≡◌, refl, is_some, ◌||◌, true, [], ◌∷◌, some}
use task_man.Text.{Text, lit, text_run}
use task_man.Calendar.{calendar_run}
use task_man.Period.{Now, LabelStyle, period_run}
use task_man.Samples.{team_row}
use task_man.Api.Types.{Status}
use task_man.Row.{
  Row, fresh_row, set_status, mark_done, reschedule_today, handle_delete, call_answered,
  due_chip_label,
}
use task_man.Row.Kept.{step, click_delete, answer, start, next, Reach-quiet}

run : Unit {0}
unfolding text_run calendar_run period_run handle_delete call_answered due_chip_label
run = tt

abbrev deleted_row : Row
deleted_row = step team_row (answer (team_row ∷ [])) (step team_row click_delete fresh_row)

deleted_test : (deleted_row.busy ≡ true) × (deleted_row.deleting ≡ true)
unfolding run
deleted_test = (refl, refl)

abbrev eve : Now
eve = record { full_year = 2026; month = 6; date = 8 }

abbrev english : LabelStyle → ℕ → Text
english style d = lit "Jul 9"

-- The task is due on the day after.
label_test : due_chip_label english eve team_row ≡ some (lit "Tomorrow")
unfolding run
label_test = refl

row_gone : (is_some deleted_row.running || deleted_row.deleting) ≡ true
unfolding run
row_gone = refl

Reach-quiet_example :
    (set_status team_row Status.todo deleted_row ≡ deleted_row)
    × (mark_done team_row deleted_row ≡ deleted_row)
    × (reschedule_today team_row deleted_row ≡ deleted_row)
    × (handle_delete team_row deleted_row ≡ deleted_row)
Reach-quiet_example =
    Reach-quiet team_row (next (next start click_delete) (answer (team_row ∷ []))) row_gone
      Status.todo
