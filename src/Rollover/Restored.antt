-- ===== src/Rollover/Restored.antt =====
-- The undo of the rollover's bulk actions, against their calls.
use task_man.Prelude.{◌≡◌, refl, ◌∙◌, false, [], map, map-map, get_or, length, drop, drop-append}
use task_man.Text.{Text}
use task_man.Api.Types.{Status, TaskView, put, UpdateTaskInput}
use task_man.Api.Patches.{no_change}
use task_man.Api.Undone.{TakesBack, Undoes, patches, patches-Undoes, All-of}
use task_man.Panel.{undo_of}
use task_man.Rollover.{
  Rollover, chosen_tasks, move_targets, week_slot, week_call, bulk_move, status_week_slot,
  status_call, bulk_status, week_undo, status_week_undo, bulk_answered, blocked,
}

move_patch : Text → TaskView → UpdateTaskInput
move_patch target t = record no_change { week_of = put target }

back_patch : TaskView → UpdateTaskInput
back_patch t = record no_change { week_of = put (get_or t.week_of []) }

status_patch : Status → TaskView → UpdateTaskInput
status_patch status t = record no_change { status = put status }

status_back_patch : TaskView → UpdateTaskInput
status_back_patch t = record no_change {
  status = put t.status;
  week_of = put (get_or t.week_of []);
}

move_calls :
    (current : Text) (s : Rollover)
    → blocked s ≡ false
    → drop (length s.panel.sent) (bulk_move current s).panel.sent
      ≡ patches (move_patch (get_or s.server_week current)) (move_targets s)
unfolding bulk_move move_patch
move_calls current s h = rw h (
    drop-append s.panel.sent
      (map (week_call (get_or s.server_week current)) (map week_slot (move_targets s)))
    ∙ map-map (week_call (get_or s.server_week current)) week_slot (move_targets s))

move_undo_calls :
    (team current : Text) (s : Rollover)
    → blocked s ≡ false
    → undo_of (bulk_answered team (bulk_move current s)).panel ≡ patches back_patch (move_targets s)
unfolding bulk_move bulk_answered back_patch
move_undo_calls team current s h = rw h (map-map week_undo week_slot (move_targets s))

status_calls :
    (status : Status) (verb : Text) (s : Rollover)
    → blocked s ≡ false
    → drop (length s.panel.sent) (bulk_status status verb s).panel.sent
      ≡ patches (status_patch status) (chosen_tasks s)
unfolding bulk_status status_patch
status_calls status verb s h = rw h (
    drop-append s.panel.sent (map (status_call status) (map status_week_slot (chosen_tasks s)))
    ∙ map-map (status_call status) status_week_slot (chosen_tasks s))

status_undo_calls :
    (team : Text) (status : Status) (verb : Text) (s : Rollover)
    → blocked s ≡ false
    → undo_of (bulk_answered team (bulk_status status verb s)).panel
      ≡ patches status_back_patch (chosen_tasks s)
unfolding bulk_status bulk_answered status_back_patch
status_undo_calls team status verb s h =
    rw h (map-map status_week_undo status_week_slot (chosen_tasks s))

move-TakesBack : (target : Text) (t : TaskView) → TakesBack (move_patch target t) (back_patch t) t
unfolding move_patch back_patch
move-TakesBack target t = record {
  title = tt;
  notes = tt;
  horizon = tt;
  period = tt;
  due_date = tt;
  status = tt;
  priority = tt;
  parent_id = tt;
  team_id = tt;
  assignee_id = tt;
  recurrence = tt;
  week_of = refl;
  tags = tt;
}

-- `Move to this week`, once it is answered, offers an undo that takes back its calls, task by task: the
-- week gets the value that it had, and no field gets another value; where the view is not busy and
-- has a selection.
pub bulk_move-undo :
    (team current : Text) (s : Rollover)
    → blocked s ≡ false
    → Undoes
        (move_targets s)
        (drop (length s.panel.sent) (bulk_move current s).panel.sent)
        (undo_of (bulk_answered team (bulk_move current s)).panel)
bulk_move-undo team current s h =
    rw (move_calls current s h, move_undo_calls team current s h)
      (patches-Undoes (move_patch target) back_patch (move_targets s) (
        All-of (λ t. TakesBack (move_patch target t) (back_patch t) t) (move-TakesBack target)
          (move_targets s)))
  where
    target : Text
    target = get_or s.server_week current

status-TakesBack :
    (status : Status) (t : TaskView) → TakesBack (status_patch status t) (status_back_patch t) t
unfolding status_patch status_back_patch
status-TakesBack status t = record {
  title = tt;
  notes = tt;
  horizon = tt;
  period = tt;
  due_date = tt;
  status = refl;
  priority = tt;
  parent_id = tt;
  team_id = tt;
  assignee_id = tt;
  recurrence = tt;
  week_of = refl;
  tags = tt;
}

-- `Mark done` or `Cancel`, once it is answered, offers an undo that takes back its calls, task by task:
-- the status and the week get the values that they had, and no field gets another value; where the
-- view is not busy and has a selection.
pub bulk_status-undo :
    (team verb : Text) (status : Status) (s : Rollover)
    → blocked s ≡ false
    → Undoes
        (chosen_tasks s)
        (drop (length s.panel.sent) (bulk_status status verb s).panel.sent)
        (undo_of (bulk_answered team (bulk_status status verb s)).panel)
bulk_status-undo team verb status s h =
    rw (status_calls status verb s h, status_undo_calls team status verb s h)
      (patches-Undoes (status_patch status) status_back_patch (chosen_tasks s) (
        All-of (λ t. TakesBack (status_patch status t) (status_back_patch t) t)
          (status-TakesBack status) (chosen_tasks s)))
