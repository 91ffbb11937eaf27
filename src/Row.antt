-- ===== src/Row.antt =====
-- ui/src/components/TaskRow.tsx: a row of a list of tasks, its calls and its due chip.
mod Kept
mod Tests
use task_man.Prelude.{
  ℕ, suc, Bool, true, false, not, ◌&&◌, ◌||◌, List, [], ◌∷◌, ◌++◌, take, Option, none, some,
  if◌then◌else◌, get_or,
}
use task_man.Prelude.Int.{ℤ, pos}
use task_man.Text.{Text, lit, text_eq, is_empty}
use task_man.Period.{Now, LabelStyle, today, add_days, format_compact_date}
use task_man.Api.Types.{Status, TaskView, put}
use task_man.Api.Requests.{Request, update_task, delete_task, restore_tasks}
use task_man.Api.Patches.{no_change}
use task_man.Attention.Selection.{Toast}

-- A call that is awaited.
pub data RowCall : Type 0 where
  patching rescheduling deleting_task : RowCall

-- `refreshes` counts the calls of `onChanged`, `changes` those of `notifyTasksChanged`, `opened` those
-- of `onOpen`.
pub record Row : Type 0 where
  pub busy : Bool
  pub deleting : Bool
  pub running : Option RowCall
  pub alerts : List Text
  pub toast : Option Toast
  pub sent : List Request
  pub refreshes : ℕ
  pub changes : ℕ
  pub opened : ℕ

abbrev pub fresh_row : Row
fresh_row = record {
  busy = false;
  deleting = false;
  running = none;
  alerts = [];
  toast = none;
  sent = [];
  refreshes = 0;
  changes = 0;
  opened = 0;
}

abbrev pub start_call : RowCall → Request → Row → Row
start_call c r s = record s { busy = true; running = some c; sent = s.sent ++ r ∷ [] }

abbrev pub is_done : Status → Bool
is_done Status.done = true
is_done _ = false

module _ (task : TaskView) where
  unfoldable pub set_status : Status → Row → Row
  set_status status s =
      if s.busy
      then s
      else start_call patching (update_task task.id (record no_change { status = put status })) s

  unfoldable pub mark_done : Row → Row
  mark_done s = if s.busy || is_done task.status then s else set_status Status.done s

  unfoldable pub reschedule_today : Row → Row
  reschedule_today s =
      if s.busy then s else start_call rescheduling (Request.reschedule (task.id ∷ [])) s

  unfoldable pub handle_delete : Row → Row
  handle_delete s =
      if s.busy || s.deleting then s else start_call deleting_task (delete_task task.id) s

  abbrev pub deleted_toast : List TaskView → Toast
  deleted_toast deleted = record {
    message = some (lit "\"" ++ (task.title ++ lit "\" deleted"));
    undo = restore_tasks deleted ∷ [];
  }

  -- The answer to the call that is awaited; a deleted row stays busy and collapses.
  abbrev pub finish_call : List TaskView → RowCall → Row → Row
  finish_call deleted deleting_task s = record s {
    deleting = true;
    running = none;
    changes = suc s.changes;
    toast = some (deleted_toast deleted);
  }
  finish_call deleted _ s = record s {
    busy = false;
    running = none;
    refreshes = suc s.refreshes;
    changes = suc s.changes;
  }

  unfoldable pub call_answered : List TaskView → Row → Row
  call_answered deleted s = elim s.running [ none ↦ s | some c ↦ finish_call deleted c s ]

unfoldable pub call_refused : Text → Row → Row
call_refused e s = elim s.running [
  | none ↦ s
  | some c ↦ record s { busy = false; running = none; alerts = s.alerts ++ e ∷ [] }
]

-- The collapse is over: the parent reloads.
abbrev pub collapsed : Row → Row
collapsed s = record s { refreshes = suc s.refreshes }

-- A click on the row itself.
unfoldable pub open_row : Row → Row
open_row s = if s.deleting then s else record s { opened = suc s.opened }

-- The toast's Undo, and what its call is answered.
unfoldable pub undo_clicked : Row → Row
undo_clicked s = elim s.toast [
  | none ↦ s
  | some t ↦ record s { toast = none; sent = s.sent ++ t.undo }
]

abbrev pub undo_answered : Row → Row
undo_answered s = record s { refreshes = suc s.refreshes; changes = suc s.changes }

abbrev pub undo_refused : Text → Row → Row
undo_refused e s = record s { alerts = s.alerts ++ e ∷ [] }

-- The text of the due chip; none where there is no chip.
module _ (locale : LabelStyle → ℕ → Text) where
  abbrev pub compact_date : Text → Text
  compact_date s = get_or (format_compact_date locale s) (lit "Invalid Date")

  abbrev pub done_label : Text → Text
  done_label at = if is_empty at then lit "Done" else lit "Done · " ++ compact_date (take 10 at)

  abbrev pub is_next_day : Option Text → Text → Bool
  is_next_day none due = false
  is_next_day (some day) due = text_eq due day

  abbrev pub open_label : Now → Text → Option Text
  open_label now due =
      if is_empty due
      then none
      else if text_eq due (today now)
      then some (lit "Today")
      else if is_next_day (add_days (today now) (pos 1)) due
      then some (lit "Tomorrow")
      else some (compact_date due)

  unfoldable pub due_chip_label : Now → TaskView → Option Text
  due_chip_label now t = elim t.status [
    | Status.cancelled ↦ some (lit "Cancelled")
    | Status.done ↦ some (done_label (get_or t.completed_at []))
    | Status.todo ↦ open_label now (get_or t.due_date [])
    | Status.in_progress ↦ open_label now (get_or t.due_date [])
  ]
