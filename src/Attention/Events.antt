-- ===== src/Attention/Events.antt =====
-- AttentionView.tsx, lines 288 to 618: the answers to the bulk actions, their undo, and all that happens
-- to the view, one event at a time.
use task_man.Prelude.{
  ℕ, suc, Bool, false, List, [], ◌∷◌, ◌++◌, map, Option, none, some, if◌then◌else◌, get_or, length,
  ◌==◌,
}
use task_man.Prelude.Int.{pos}
use task_man.Text.{Text, lit}
use task_man.Period.{LabelStyle, format_compact_date, format_date}
use task_man.Api.Types.{TaskView, AttentionViewResponse}
use task_man.Attention.Copy.{plural}
use task_man.Attention.Selection.{
  Request, restore_tasks, Bulk, rescheduling, scheduling, marking, deleting, moving, Attention,
  send, reload, loaded, dismiss_toast, toggle, toggle_section_all, toggle_select_all, fail,
}
use task_man.Attention.Bulk.{
  backlog_undo, run_delete, run_mark_done, run_move_to_backlog, run_reschedule, run_schedule_for,
  slot_undo, status_undo,
}

abbrev pub tasks_text : ℕ → Text
tasks_text n = plural (pos n) (lit "task")

abbrev pub concat_deleted : List (List TaskView) → List TaskView
concat_deleted [] = []
concat_deleted (ts ∷ tss) = ts ++ concat_deleted tss

abbrev pub skipped_text : ℕ → Text
skipped_text n = if n == 0 then [] else lit " · " ++ (tasks_text n ++ lit " skipped")

-- The part that all five share once the server has answered, then the toast.
abbrev pub after_bulk : List Text → Option Text → List Request → Attention → Attention
after_bulk tags message undo s =
    let reloaded = reload tags (record s { selected = [] }) in
    record reloaded {
      changes = suc s.changes;
      toast = some (record { message = message; undo = undo });
      busy = false;
      running = none;
    }

module _ (locale : LabelStyle → ℕ → Text) where
  abbrev pub scheduled_text : ℕ → Text → Option Text
  scheduled_text n date = elim (format_compact_date locale date) [
    | none ↦ none
    | some label ↦ some (tasks_text n ++ (lit " scheduled for " ++ label))
  ]

  abbrev pub bulk_done : List (List TaskView) → List Text → Bulk → Attention → Attention
  bulk_done results tags (rescheduling n slots) s =
      after_bulk tags (some (tasks_text n ++ lit " rescheduled to today")) (map slot_undo slots) s
  bulk_done results tags (scheduling date slots) s =
      after_bulk tags (scheduled_text (length slots) date) (map slot_undo slots)
        (record s { schedule_date = [] })
  bulk_done results tags (marking slots) s =
      after_bulk tags (some (tasks_text (length slots) ++ lit " marked done"))
        (map status_undo slots) s
  bulk_done results tags (deleting n) s =
      after_bulk tags (some (tasks_text n ++ lit " deleted"))
        (restore_tasks (concat_deleted results) ∷ []) s
  bulk_done results tags (moving skipped slots) s =
      after_bulk tags
        (some (
          lit "Moved "
          ++ (tasks_text (length slots) ++ (lit " to backlog" ++ skipped_text skipped))))
        (map backlog_undo slots) s

  -- The server's answer to the waiting action: to `deleteTask` the tasks deleted by each call.
  unfoldable pub answered : List (List TaskView) → Attention → Attention
  answered results s = elim s.running [ none ↦ s | some r ↦ bulk_done results r.tags r.bulk s ]

-- Its failure.
unfoldable pub refused : Text → Attention → Attention
refused e s = elim s.running [
  | none ↦ s
  | some r ↦ record (fail e s) { busy = false; running = none }
]

-- A click on the toast's Undo.
unfoldable pub undo_clicked : Attention → Attention
undo_clicked s = elim s.toast [ none ↦ s | some t ↦ dismiss_toast (send t.undo s) ]

-- Every call of the undo has succeeded.
unfoldable pub undone : List Text → Attention → Attention
undone tags s = let reloaded = reload tags s in record reloaded { changes = suc s.changes }

-- What the user, the server and the clock do, one at a time.
pub data Event : Type 0 where
  click_row : Text → Event
  click_section : List Text → Event
  click_select_all clear_selection : Event
  pick_date : Option ℕ → Event
  filter_by : List Text → Event
  open_task : Text → Event
  close_task task_changed : Event
  click_reschedule click_schedule click_done click_delete click_move click_undo toast_expired :
      Event
  load_answer : AttentionViewResponse → Event
  load_refused bulk_refused undo_refused : Text → Event
  bulk_answer : List (List TaskView) → Event
  undo_answer : List Text → Event

module _ (locale : LabelStyle → ℕ → Text) (is_admin : Bool) where
  abbrev pub step : Event → Attention → Attention
  step (click_row id) s = toggle id s
  step (click_section ids) s = toggle_section_all ids s
  step click_select_all s = toggle_select_all s
  step clear_selection s = record s { selected = [] }
  step (pick_date none) s = record s { schedule_date = [] }
  step (pick_date (some d)) s = record s { schedule_date = format_date d }
  step (filter_by tags) s = reload tags (record s { tags = tags })
  step (open_task id) s = record s { selected_id = some id }
  step close_task s = record s { selected_id = none }
  step task_changed s = reload s.tags s
  step click_reschedule s = get_or (run_reschedule s) s
  step click_schedule s = get_or (run_schedule_for s) s
  step click_done s = run_mark_done s
  step click_delete s = if is_admin then run_delete s else s
  step click_move s = run_move_to_backlog is_admin s
  step click_undo s = undo_clicked s
  step toast_expired s = dismiss_toast s
  step (load_answer d) s = loaded d s
  step (load_refused e) s = fail e s
  step (bulk_refused e) s = refused e s
  step (undo_refused e) s = fail e s
  step (bulk_answer results) s = answered locale results s
  step (undo_answer tags) s = undone tags s
