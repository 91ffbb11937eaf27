-- ===== src/Attention/Bulk.antt =====
-- AttentionView.tsx, lines 288 to 490: the five bulk actions up to their calls, and the calls of their undo.
use task_man.Prelude.{
  ◌-◌, Bool, true, not, ◌&&◌, ◌||◌, List, [], ◌∷◌, map, Option, none, some, if◌then◌else◌, get_or,
  length, keep_if, ◌==◌,
}
use task_man.Text.{Text, is_empty}
use task_man.Api.Types.{Horizon, Status, TaskView, null, put, UpdateTaskInput}
pub use task_man.Api.Patches.{no_change, put_or_null, put_or_absent}
use task_man.Attention.Copy.{filled, is_recurring, period_of}
use task_man.Attention.Selection.{
  Request, reschedule, update_task, delete_task, Slot, StatusSlot, TeamSlot, BacklogSlot, Bulk,
  rescheduling, scheduling, marking, deleting, moving, Attention, send, task_by_id, is_none_left,
}

-- `busy || selected.size === 0`.
unfoldable pub idle : Attention → Bool
idle s = s.busy || is_none_left s.selected

-- `setBusy(true)`, and the calls that are awaited.
abbrev pub await : Bulk → List Request → Attention → Attention
await bulk calls s =
    send calls (record s { busy = true; running = some (record { bulk = bulk; tags = s.tags }) })

-- The tasks found, those missed left out.
abbrev pub found_in : (Text → Option TaskView) → List Text → List TaskView
found_in get [] = []
found_in get (id ∷ ids) =
    let rest = found_in get ids in elim (get id) [ none ↦ rest | some t ↦ t ∷ rest ]

-- `taskById.get(id)!` of every identifier: a miss throws.
abbrev pub all_in : (Text → Option TaskView) → List Text → Option (List TaskView)
all_in get [] = some []
all_in get (id ∷ ids) =
    let rest = all_in get ids in
    elim (get id) [ none ↦ none | some t ↦ elim rest [ none ↦ none | some ts ↦ some (t ∷ ts) ] ]

unfoldable pub slot_of : TaskView → Slot
slot_of t = record { id = t.id; period = t.period; due_date = get_or t.due_date [] }

-- `none` is the rejection that nothing catches, before any state is set.
unfoldable pub run_reschedule : Attention → Option Attention
run_reschedule s = if idle s then some s else elim (all_in (task_by_id s) s.selected) [
  | none ↦ none
  | some ts ↦
      some
        (await (rescheduling (length s.selected) (map slot_of ts)) (reschedule s.selected ∷ []) s)
]

unfoldable pub schedule_patch : Text → TaskView → Option UpdateTaskInput
schedule_patch date t = elim (period_of date t.horizon) [
  | none ↦ none
  | some p ↦ some (
      if filled t.due_date
      then record no_change { due_date = put date; period = put p }
      else record no_change { period = put p })
]

abbrev pub schedule_calls : Text → List TaskView → Option (List Request)
schedule_calls date [] = some []
schedule_calls date (t ∷ ts) =
    let rest = schedule_calls date ts in
    elim (schedule_patch date t) [
      | none ↦ none
      | some p ↦ elim rest [ none ↦ none | some rs ↦ some (update_task t.id p ∷ rs) ]
    ]

-- `none` where the date is none: the input gives dates and the empty text.
unfoldable pub run_schedule_for : Attention → Option Attention
run_schedule_for s =
    let found = found_in (task_by_id s) s.selected in
    if idle s || is_empty s.schedule_date
    then some s
    else elim (schedule_calls s.schedule_date found) [
      | none ↦ none
      | some calls ↦ some (await (scheduling s.schedule_date (map slot_of found)) calls s)
    ]

unfoldable pub status_slot : TaskView → StatusSlot
status_slot t = record { id = t.id; status = t.status }

abbrev pub done_call : StatusSlot → Request
done_call r = update_task r.id (record no_change { status = put Status.done })

unfoldable pub run_mark_done : Attention → Attention
run_mark_done s =
    let remembered = map status_slot (found_in (task_by_id s) s.selected) in
    if idle s then s else await (marking remembered) (map done_call remembered) s

unfoldable pub run_delete : Attention → Attention
run_delete s =
    if idle s then s else await (deleting (length s.selected)) (map delete_task s.selected) s

unfoldable pub is_eligible : Bool → TaskView → Bool
is_eligible is_admin t =
    not (is_recurring t) && ((not (filled t.team_id) || is_admin) && t.progress.total == 0)

-- An empty `weekOf` is left out like one that is not there.
unfoldable pub backlog_slot : TaskView → BacklogSlot
backlog_slot t = record {
  id = t.id;
  horizon = t.horizon;
  period = t.period;
  due_date = get_or t.due_date [];
  team =
      if filled t.team_id
      then some (record {
        team_id = get_or t.team_id [];
        assignee_id = t.assignee_id;
        week_of = if filled t.week_of then t.week_of else none;
      })
      else none;
}

unfoldable pub backlog_patch : TaskView → UpdateTaskInput
backlog_patch t =
    let parked : UpdateTaskInput = record no_change {
      horizon = put Horizon.backlog;
      period = put [];
      due_date = put [];
    } in
    if filled t.team_id then record parked { team_id = null; assignee_id = null } else parked

abbrev pub backlog_call : TaskView → Request
backlog_call t = update_task t.id (backlog_patch t)

unfoldable pub run_move_to_backlog : Bool → Attention → Attention
run_move_to_backlog is_admin s =
    let found = found_in (task_by_id s) s.selected in
    let eligible = keep_if (is_eligible is_admin) found in
    if idle s
    then s
    else await (moving (length found - length eligible) (map backlog_slot eligible))
        (map backlog_call eligible) s

-- The undo of each action.
unfoldable pub slot_undo : Slot → Request
slot_undo r =
    update_task r.id (record no_change { period = put r.period; due_date = put r.due_date })

unfoldable pub status_undo : StatusSlot → Request
status_undo r = update_task r.id (record no_change { status = put r.status })

abbrev pub team_restored : Option TeamSlot → UpdateTaskInput → UpdateTaskInput
team_restored none p = p
team_restored (some g) p = record p {
  team_id = put g.team_id;
  assignee_id = put_or_null g.assignee_id;
  week_of = put_or_absent g.week_of;
}

unfoldable pub backlog_restore : BacklogSlot → UpdateTaskInput
backlog_restore r =
    team_restored r.team (record no_change {
      horizon = put r.horizon;
      period = put r.period;
      due_date = put r.due_date;
    })

abbrev pub backlog_undo : BacklogSlot → Request
backlog_undo r = update_task r.id (backlog_restore r)
