-- ===== src/Detail/Panel.antt =====
-- ui/src/components/TaskDetail.tsx: the panel of a task, its state, its loading,
-- its patches, its notes and its subtasks. `fetch` counts the loads: the answer to an earlier one is
-- dropped, as the effect's `cancelled` has it. `loads` holds the tasks asked for by them, each with its
-- load, the last one first.
use task_man.Prelude.{
  ℕ, suc, ◌==◌, Bool, true, false, not, ◌&&◌, ◌||◌, List, [], ◌∷◌, ◌++◌, Option, none, some,
  if◌then◌else◌, get_or,
}
use task_man.Text.{Text, lit, trim, is_empty, text_eq}
use task_man.Period.{Now, today}
use task_man.Api.Types.{
  Horizon, Status, Recurrence, ActivityEntry, TaskView, CreateTaskInput, put, null, Change,
  UpdateTaskInput,
}
use task_man.Api.Requests.{
  Request, get_task, create_task, update_task, delete_task, restore_tasks, add_note, edit_note,
  delete_note,
}
use task_man.Api.Patches.{no_change}
use task_man.Attention.Selection.{Toast}
use task_man.Detail.{Edit, edited, toggle_recur_on, default_period_for, same_horizon}

pub record DetailTask : Type 0 where
  pub task : TaskView
  pub children : List TaskView

-- A note's call that is awaited, for the task of this identifier.
pub data NoteCall : Type 0 where
  adding editing : Text → NoteCall
  removing : Text → ActivityEntry → NoteCall

pub record Detail : Type 0 where
  pub current_id : Text
  pub shown : Option DetailTask
  pub loading : Bool
  pub fetch : ℕ
  pub loads : List (ℕ × Text)
  pub error : Option Text
  pub title_draft : Text
  pub notes_draft : Text
  pub subtask_title : Text
  pub subtask_horizon : Horizon
  pub is_saving : Bool
  pub deleting_task : Bool
  pub closing : Bool
  pub note_text : Text
  pub note_date : Text
  pub note_busy : Bool
  pub note_call : Option NoteCall
  pub editing_note : Option Text
  pub edit_note_text : Text
  pub edit_note_date : Text
  pub alerts : List Text
  pub toast : Option Toast
  pub sent : List Request
  pub changes : ℕ

abbrev pub send : Request → Detail → Detail
send r s = record s { sent = s.sent ++ r ∷ [] }

abbrev pub alert : Text → Detail → Detail
alert e s = record s { alerts = s.alerts ++ e ∷ [] }

abbrev pub say : Text → List Request → Detail → Detail
say message undo s = record s { toast = some (record { message = some message; undo = undo }) }

-- `notifyTasksChanged(); onChanged();`
abbrev pub notify : Detail → Detail
notify s = record s { changes = suc s.changes }

abbrev pub opened_panel : Now → Text → Detail
opened_panel now id = record {
  current_id = id;
  shown = none;
  loading = true;
  fetch = 0;
  loads = (0, id) ∷ [];
  error = none;
  title_draft = [];
  notes_draft = [];
  subtask_title = [];
  subtask_horizon = Horizon.daily;
  is_saving = false;
  deleting_task = false;
  closing = false;
  note_text = [];
  note_date = today now;
  note_busy = false;
  note_call = none;
  editing_note = none;
  edit_note_text = [];
  edit_note_date = [];
  alerts = [];
  toast = none;
  sent = get_task id ∷ [];
  changes = 0;
}

-- To another task: its parent, a subtask, or the one that the view gives.
unfoldable pub navigate : Now → Text → Detail → Detail
navigate now id s =
    if text_eq id s.current_id
    then s
    else send (get_task id) (record s {
      current_id = id;
      loading = true;
      fetch = suc s.fetch;
      loads = (suc s.fetch, id) ∷ s.loads;
      error = none;
      note_text = [];
      note_date = today now;
      editing_note = none;
    })

unfoldable pub load_answered : ℕ → DetailTask → Detail → Detail
load_answered k d s =
    if k == s.fetch
    then record s {
      shown = some d;
      loading = false;
      title_draft = d.task.title;
      notes_draft = get_or d.task.notes [];
      subtask_horizon = d.task.horizon;
    }
    else s

unfoldable pub load_refused : ℕ → Text → Detail → Detail
load_refused k e s = if k == s.fetch then record s { error = some e; loading = false } else s

-- `patch`, and `saveTags`, which sends the tags.
unfoldable pub send_patch : UpdateTaskInput → Detail → Detail
send_patch p s = elim s.shown [
  | none ↦ s
  | some d ↦ send (update_task d.task.id p) (record s { is_saving = true })
]

abbrev pub with_children : TaskView → Option DetailTask → Option DetailTask
with_children t none = none
with_children t (some d) = some (record d { task = t })

unfoldable pub patch_answered : TaskView → Detail → Detail
patch_answered t s = notify (record s { shown = with_children t s.shown; is_saving = false })

unfoldable pub patch_refused : Text → Detail → Detail
patch_refused e s = alert e (record s { is_saving = false })

-- A refusal of `saveTags` is shown by the tag editor.
abbrev pub tags_refused : Detail → Detail
tags_refused s = record s { is_saving = false }

-- The title and the description are sent when their inputs are left.
abbrev pub title_left : TaskView → Detail → Detail
title_left t s =
    if not (is_empty (trim s.title_draft)) && not (text_eq s.title_draft t.title)
    then send_patch (record no_change { title = put (trim s.title_draft) }) s
    else record s { title_draft = t.title }

abbrev pub notes_left : TaskView → Detail → Detail
notes_left t s =
    if text_eq s.notes_draft (get_or t.notes [])
    then s
    else send_patch (record no_change { notes = put s.notes_draft }) s

abbrev pub repeat_change : Option Recurrence → Change Recurrence
repeat_change none = null
repeat_change (some r) = put r

abbrev pub patch_repeat : Option Recurrence → Detail → Detail
patch_repeat r s = send_patch (record no_change { recurrence = repeat_change r }) s

-- An edit of the repetition, and its switch.
abbrev pub repeat_edited : Edit → Recurrence → Detail → Detail
repeat_edited e r s = elim (edited e r) [ none ↦ s | some q ↦ patch_repeat (some q) s ]

abbrev pub repeat_switched : TaskView → Detail → Detail
repeat_switched t s = patch_repeat (toggle_recur_on t.recurrence) s

-- The answers to `getTask` in `reloadCurrent` and in `refreshDetail`, which looks whose task it is.
unfoldable pub reload_answered : DetailTask → Detail → Detail
reload_answered d s = notify (record s { shown = some d })

abbrev pub if_shown : Text → DetailTask → Option DetailTask → Option DetailTask
if_shown id d none = none
if_shown id d (some p) = if text_eq p.task.id id then some d else some p

unfoldable pub refresh_answered : Text → DetailTask → Detail → Detail
refresh_answered id d s = record s { shown = if_shown id d s.shown }

abbrev pub text_or_none : Text → Option Text
text_or_none s = if is_empty s then none else some s

abbrev pub start_note : NoteCall → Request → Detail → Detail
start_note w r s = send r (record s { note_busy = true; note_call = some w })

unfoldable pub post_note : DetailTask → Detail → Detail
post_note d s =
    if is_empty (trim s.note_text) || s.note_busy
    then s
    else start_note (adding d.task.id)
        (add_note d.task.id (trim s.note_text) (text_or_none s.note_date)) s

abbrev pub start_edit_note : ActivityEntry → Detail → Detail
start_edit_note e s = record s {
  editing_note = some e.id;
  edit_note_text = get_or e.text [];
  edit_note_date = e.date;
}

unfoldable pub save_edit_note : DetailTask → Detail → Detail
save_edit_note d s =
    if is_empty (get_or s.editing_note []) || (is_empty (trim s.edit_note_text) || s.note_busy)
    then s
    else start_note (editing d.task.id)
        (edit_note d.task.id (get_or s.editing_note []) (trim s.edit_note_text)
          (text_or_none s.edit_note_date))
        s

unfoldable pub remove_note : DetailTask → ActivityEntry → Detail → Detail
remove_note d e s =
    if s.note_busy then s else start_note (removing d.task.id e) (delete_note d.task.id e.id) s

-- A note's call has its answer: the task is asked for again.
abbrev pub note_called : Now → NoteCall → Detail → Detail
note_called now (adding id) s =
    send (get_task id) (record s { note_text = []; note_date = today now })
note_called now (editing id) s = send (get_task id) (record s { editing_note = none })
note_called now (removing id e) s = send (get_task id) s

-- That answer too: the note's call is over. A deletion offers its undo.
abbrev pub note_over : Detail → Detail
note_over s = record s { note_busy = false; note_call = none }

abbrev pub note_refreshed : DetailTask → NoteCall → Detail → Detail
note_refreshed d (adding id) s = note_over (refresh_answered id d s)
note_refreshed d (editing id) s = note_over (refresh_answered id d s)
note_refreshed d (removing id e) s =
    say (lit "Note deleted") (add_note id (get_or e.text []) (some e.date) ∷ [])
      (note_over (refresh_answered id d s))

abbrev pub note_refused : Text → Detail → Detail
note_refused e s = say e [] (note_over s)

abbrev pub can_edit_note : Bool → Text → ActivityEntry → Bool
can_edit_note is_admin user e = is_admin || text_eq (get_or e.by []) user

-- The subtasks.
abbrev pub other_status : Status → Status
other_status Status.done = Status.todo
other_status _ = Status.done

abbrev pub toggle_subtask : TaskView → Detail → Detail
toggle_subtask child s =
    send (update_task child.id (record no_change { status = put (other_status child.status) })) s

abbrev pub subtask_input : Now → TaskView → Detail → CreateTaskInput
subtask_input now t s = record {
  title = trim s.subtask_title;
  notes = none;
  horizon = s.subtask_horizon;
  period =
      if same_horizon s.subtask_horizon t.horizon
      then t.period
      else default_period_for now s.subtask_horizon;
  due_date = none;
  status = none;
  priority = none;
  parent_id = some t.id;
  team_id = none;
  assignee_id = none;
  recurrence = none;
  tags = none;
}

unfoldable pub add_subtask : Now → DetailTask → Detail → Detail
add_subtask now d s =
    if is_empty (trim s.subtask_title) then s else send (create_task (subtask_input now d.task s)) s

-- The answer to a subtask's call: the task is asked for again.
abbrev pub subtask_called : Detail → Detail
subtask_called s = send (get_task s.current_id) s

abbrev pub subtask_added : Detail → Detail
subtask_added s = subtask_called (record s { subtask_title = [] })

abbrev pub subtask_deleted : TaskView → List TaskView → Detail → Detail
subtask_deleted child deleted s =
    subtask_called
      (say (lit "Deleted \"" ++ (child.title ++ lit "\"")) (restore_tasks deleted ∷ []) s)

-- The deletion of the task.
unfoldable pub delete_shown : DetailTask → Detail → Detail
delete_shown d s =
    if s.deleting_task then s else send (delete_task d.task.id) (record s { deleting_task = true })

unfoldable pub shown_deleted : TaskView → List TaskView → Detail → Detail
shown_deleted t deleted s = notify (
    say (lit "Deleted \"" ++ (t.title ++ lit "\"")) (restore_tasks deleted ∷ [])
      (record s { closing = true }))

unfoldable pub delete_refused : Text → Detail → Detail
delete_refused e s = alert e (record s { deleting_task = false })
