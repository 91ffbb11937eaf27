-- ===== src/Detail/Steps.antt =====
-- What happens to the panel of a task, and what holds of it at every moment.
use task_man.Prelude.{ℕ, ◌≡◌, [], ◌∷◌, ◌⊎◌, true, ◌||◌, List, Option, none, some, is_some}
use task_man.Text.{Text}
use task_man.Period.{Now}
use task_man.Api.Types.{Horizon, Recurrence, ActivityEntry, TaskView, UpdateTaskInput}
use task_man.Detail.{Edit}
use task_man.Detail.Panel.{
  DetailTask, NoteCall, adding, editing, removing, Detail, opened_panel, navigate, load_answered,
  load_refused, send_patch, patch_answered, patch_refused, tags_refused, title_left, notes_left,
  repeat_edited, repeat_switched, reload_answered, post_note, start_edit_note, save_edit_note,
  remove_note, note_called, note_refreshed, note_refused, toggle_subtask, add_subtask,
  subtask_called, subtask_added, subtask_deleted, delete_shown, shown_deleted, delete_refused,
}

pub data Event : Type 0 where
  go_to : Now → Text → Event
  load_answer : ℕ → DetailTask → Event
  load_refusal : ℕ → Text → Event
  type_title type_notes type_subtask type_note type_note_date type_edit type_edit_date :
      Text → Event
  pick_subtask_horizon : Horizon → Event
  leave_title leave_notes : TaskView → Event
  send_change : UpdateTaskInput → Event
  edit_repeat : Edit → Recurrence → Event
  switch_repeat : TaskView → Event
  patch_answer : TaskView → Event
  patch_refusal : Text → Event
  tags_refusal : Event
  reload_answer : DetailTask → Event
  click_add_note click_save_note : DetailTask → Event
  click_edit_note : ActivityEntry → Event
  click_cancel_note : Event
  click_delete_note : DetailTask → ActivityEntry → Event
  note_answer : Now → Event
  note_refresh : DetailTask → Event
  note_refusal : Text → Event
  click_subtask : TaskView → Event
  click_add_subtask : Now → DetailTask → Event
  subtask_answer subtask_add_answer : Event
  subtask_delete_answer : TaskView → List TaskView → Event
  click_delete : DetailTask → Event
  delete_answer : TaskView → List TaskView → Event
  delete_refusal : Text → Event
  click_close : Event

abbrev pub for_call : Option NoteCall → (NoteCall → Detail → Detail) → Detail → Detail
for_call none f s = s
for_call (some w) f s = f w s

abbrev pub step : Event → Detail → Detail
step (go_to now id) s = navigate now id s
step (load_answer k d) s = load_answered k d s
step (load_refusal k e) s = load_refused k e s
step (type_title v) s = record s { title_draft = v }
step (type_notes v) s = record s { notes_draft = v }
step (type_subtask v) s = record s { subtask_title = v }
step (type_note v) s = record s { note_text = v }
step (type_note_date v) s = record s { note_date = v }
step (type_edit v) s = record s { edit_note_text = v }
step (type_edit_date v) s = record s { edit_note_date = v }
step (pick_subtask_horizon h) s = record s { subtask_horizon = h }
step (leave_title t) s = title_left t s
step (leave_notes t) s = notes_left t s
step (send_change p) s = send_patch p s
step (edit_repeat e r) s = repeat_edited e r s
step (switch_repeat t) s = repeat_switched t s
step (patch_answer t) s = patch_answered t s
step (patch_refusal e) s = patch_refused e s
step tags_refusal s = tags_refused s
step (reload_answer d) s = reload_answered d s
step (click_add_note d) s = post_note d s
step (click_save_note d) s = save_edit_note d s
step (click_edit_note e) s = start_edit_note e s
step click_cancel_note s = record s { editing_note = none }
step (click_delete_note d e) s = remove_note d e s
step (note_answer now) s = for_call s.note_call (note_called now) s
step (note_refresh d) s = for_call s.note_call (note_refreshed d) s
step (note_refusal e) s = note_refused e s
step (click_subtask child) s = toggle_subtask child s
step (click_add_subtask now d) s = add_subtask now d s
step subtask_answer s = subtask_called s
step subtask_add_answer s = subtask_added s
step (subtask_delete_answer child deleted) s = subtask_deleted child deleted s
step (click_delete d) s = delete_shown d s
step (delete_answer t deleted) s = shown_deleted t deleted s
step (delete_refusal e) s = delete_refused e s
step click_close s = record s { closing = true }

abbrev pub Shows : Text → Option DetailTask → Type 0
Shows id none = Unit
Shows id (some d) = d.task.id ≡ id

abbrev pub note_task : NoteCall → Text
note_task (adding id) = id
note_task (editing id) = id
note_task (removing id e) = id

abbrev pub FitsCall : DetailTask → Option NoteCall → Type 0
FitsCall d none = Unit
FitsCall d (some w) = d.task.id ≡ note_task w

-- This task was asked for by this load.
abbrev pub IsAsked : ℕ → Text → List (ℕ × Text) → Type 0
IsAsked k id [] = ⊥
IsAsked k id ((n, i) ∷ loads) = ((k ≡ n) × (id ≡ i)) ⊎ IsAsked k id loads

-- The server answers a request for a task with that task. An answer to any load and of the notes may
-- come at any time; one to a patch, or to a subtask's reload, which the code does not guard, before the
-- panel goes to another task.
abbrev pub IsOffered : Event → Detail → Type 0
IsOffered (load_answer k d) s = IsAsked k d.task.id s.loads
IsOffered (patch_answer t) s = Shows t.id s.shown
IsOffered (reload_answer d) s = d.task.id ≡ s.current_id
IsOffered (note_refresh d) s = FitsCall d s.note_call
IsOffered _ s = Unit

module _ (now : Now) where
  pub data Reach : Detail → Type 0 where
    start : (id : Text) → Reach (opened_panel now id)
    next : {s : Detail} → Reach s → (e : Event) → IsOffered e s → Reach (step e s)

-- The panel shows the task that it is on, unless that is being loaded or was refused; and it takes no other note as
-- long as a note's call is awaited.
pub record IsCurrent (s : Detail) : Type 0 where
  pub current : ((s.loading || is_some s.error) ≡ true) ⊎ Shows s.current_id s.shown
  pub awaited : s.note_busy ≡ is_some s.note_call
