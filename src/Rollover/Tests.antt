-- ===== src/Rollover/Tests.antt =====
-- A run of the rollover, and the witnesses of its theorems.
use task_man.Prelude.{◌≡◌, refl, false, [], ◌∷◌, true, length, drop, All}
use task_man.Text.{lit, text_run}
use task_man.Samples.{team_row, late_row}
use task_man.Api.Types.{Status, RolloverResponse}
use task_man.Api.Undone.{Undoes}
use task_man.Picks.{has, toggled}
use task_man.Panel.{undo_of}
use task_man.Rollover.{
  Rollover, rollover_task, chosen_tasks, shown_ids, blocked, bulk_status, bulk_answered,
  groups_from, rollover_loaded, toggle_row, step, load_answer, click_row, first,
}
use task_man.Rollover.Groups.{rows_of, SameWeek, Apart, groups_from-grouped}
use task_man.Rollover.Kept.{Reach, start, next, IsReady, Reach-IsReady}
use task_man.Rollover.Restored.{bulk_status-undo}

run : Unit {0}
unfolding text_run toggled rollover_task blocked rollover_loaded toggle_row
run = tt

abbrev week_rows : RolloverResponse
week_rows = record { week = lit "2026-W29"; tasks = late_row ∷ team_row ∷ [] }

abbrev loaded_view : Rollover
loaded_view = step (lit "t1") (load_answer week_rows) (first (lit "t1"))

abbrev chosen_view : Rollover
chosen_view = step (lit "t1") (click_row (lit "b")) loaded_view

row_shown : has (lit "b") (shown_ids loaded_view) ≡ true
unfolding run
row_shown = refl

view_reached : Reach (lit "t1") chosen_view
view_reached = next (next start (load_answer week_rows) tt) (click_row (lit "b")) row_shown

Reach-IsReady_example : IsReady chosen_view
Reach-IsReady_example = Reach-IsReady (lit "t1") view_reached

groups_from-grouped_example :
    (rows_of (groups_from (late_row ∷ team_row ∷ []) []) ≡ late_row ∷ team_row ∷ [])
    × All SameWeek (groups_from (late_row ∷ team_row ∷ []) [])
    × Apart (groups_from (late_row ∷ team_row ∷ []) [])
groups_from-grouped_example = groups_from-grouped (late_row ∷ team_row ∷ [])

view_idle : blocked chosen_view ≡ false
unfolding run
view_idle = refl

bulk_status-undo_example :
    Undoes
      (chosen_tasks chosen_view)
      (drop
        (length chosen_view.panel.sent)
        (bulk_status Status.done (lit "marked done") chosen_view).panel.sent)
      (undo_of
        (bulk_answered (lit "t1") (bulk_status Status.done (lit "marked done") chosen_view)).panel)
bulk_status-undo_example =
    bulk_status-undo (lit "t1") (lit "marked done") Status.done chosen_view view_idle
