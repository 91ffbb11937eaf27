-- ===== src/Attention/Tests.antt =====
-- A run of the attention view, and the witnesses of its theorems.
use task_man.Prelude.{ℕ, ◌≡◌, refl, true, false, [], ◌∷◌, none, some, is_some, length, drop, All}
use task_man.Text.{Text, lit, text_run}
use task_man.Calendar.{calendar_run}
use task_man.Period.{LabelStyle, period_run}
use task_man.Api.Types.{
  Horizon, Status, no_priority, TaskView, UpdateTaskInput, AttentionViewResponse, put,
}
use task_man.Attention.Copy.{is_recurring, plural, period_of}
use task_man.Attention.Selection.{
  update_task, Attention, fresh, has, all_ids, all_selected, reload, loaded, task_by_id, toggled,
  toggle, section_toggled, toggle_select_all, dismiss_toast,
}
use task_man.Attention.Bulk.{
  no_change, idle, slot_of, schedule_patch, status_slot, backlog_slot, backlog_patch, slot_undo,
  status_undo, backlog_restore, run_reschedule, run_schedule_for, run_mark_done, run_delete,
  run_move_to_backlog, is_eligible,
}
use task_man.Attention.Events.{click_row, click_done, load_answer, step, answered, refused}
use task_man.Attention.Consistent.{Reach, start, next, IsConsistent, Reach-IsConsistent}
use task_man.Attention.Found.{Reach-run_reschedule}
use task_man.Attention.Moves.{IsTeamFree, undo_calls, user-IsTeamFree}

run : Unit {0}
unfolding text_run calendar_run period_run plural period_of is_recurring reload loaded task_by_id
    all_selected dismiss_toast toggled toggle section_toggled toggle_select_all idle slot_of
    schedule_patch status_slot backlog_slot backlog_patch slot_undo status_undo backlog_restore
    run_reschedule run_schedule_for run_mark_done run_delete run_move_to_backlog answered refused
    is_eligible
run = tt

abbrev english : LabelStyle → ℕ → Text
english style d = lit "Jul 6"

abbrev late_task : TaskView
late_task = record {
  id = lit "a";
  title = lit "Ship";
  notes = none;
  horizon = Horizon.weekly;
  period = lit "2026-W27";
  due_date = some (lit "2026-07-03");
  status = Status.todo;
  priority = no_priority;
  parent_id = none;
  team_id = none;
  assignee_id = none;
  recurrence = none;
  series_id = none;
  created_at = [];
  updated_at = [];
  completed_at = none;
  progress = record { done = 0; total = 0 };
  week_of = none;
  activity = none;
  tags = [];
}

abbrev team_task : TaskView
team_task = record late_task {
  id = lit "b";
  team_id = some (lit "t1");
  assignee_id = some (lit "m1");
  week_of = some (lit "2026-W27");
}

abbrev two_tasks : AttentionViewResponse
two_tasks = record { overdue = late_task ∷ []; slipped = team_task ∷ [] }

abbrev opened : Attention
opened = step english false (load_answer two_tasks) (fresh [])

abbrev one_chosen : Attention
one_chosen = step english false (click_row (lit "a")) opened

one_shown : has (lit "a") (all_ids opened) ≡ true
unfolding run
one_shown = refl

one_reached : Reach english false one_chosen
one_reached = next (next (start []) (load_answer two_tasks) tt) (click_row (lit "a")) one_shown

Reach-IsConsistent_example : IsConsistent one_chosen
Reach-IsConsistent_example = Reach-IsConsistent english false one_reached

Reach-run_reschedule_example : is_some (run_reschedule one_chosen) ≡ true
Reach-run_reschedule_example = Reach-run_reschedule english false one_reached

-- The chosen task is marked done with one call, and the view waits.
done_test :
    ((step english false click_done one_chosen).busy ≡ true)
    × (drop 1 (step english false click_done one_chosen).sent
        ≡ update_task (lit "a") (record no_change { status = put Status.done }) ∷ [])
unfolding run
done_test = (refl, refl)

abbrev moved_patch : UpdateTaskInput
moved_patch = record no_change { due_date = put (lit "2026-07-08"); period = put (lit "2026-W28") }

moved_patch-eq : schedule_patch (lit "2026-07-08") late_task ≡ some moved_patch
unfolding run
moved_patch-eq = refl

abbrev waiting : Attention
waiting = step english false click_done one_chosen

waiting-busy : waiting.busy ≡ true
unfolding run
waiting-busy = refl

not_busy : one_chosen.busy ≡ false
unfolding run
not_busy = refl

not_running : one_chosen.running ≡ none
unfolding run
not_running = refl

not_idle : idle one_chosen ≡ false
unfolding run
not_idle = refl

user-IsTeamFree_example :
    All IsTeamFree (drop (length one_chosen.sent) (run_move_to_backlog false one_chosen).sent)
    × All IsTeamFree (undo_calls (answered english [] (run_move_to_backlog false one_chosen)))
user-IsTeamFree_example = user-IsTeamFree english [] one_chosen not_idle
