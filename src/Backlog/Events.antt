-- ===== src/Backlog/Events.antt =====
-- What happens to the backlog view: clicks, and the answers to its calls.
use task_man.Prelude.{false, List, [], ◌∷◌, none, some}
use task_man.Text.{Text}
use task_man.Api.Types.{Status, TaskView, Team, put}
use task_man.Api.Requests.{Request, update_task}
use task_man.Api.Patches.{no_change}
use task_man.Panel.{Panel, empty_panel, post, refresh, complain, choose, hide_toast, click_undo_on}
use task_man.Backlog.{
  Backlog, AssignInput, changed_panel, backlog_loaded, toggle_task, target_clicked, delete_one,
  delete_selected, assign_tasks, bulk_answered, bulk_refused, one_deleted,
}

-- An answer to a call carries the tags of the filter at the time of the call, with which its closure
-- reloads.
pub data Event : Type 0 where
  click_row open_task : Text → Event
  click_clear close_task : Event
  task_changed : List Text → Event
  filter_by : List Text → Event
  pick_status : Text → Status → Event
  click_assign : Text → Event
  close_popover : Event
  assign_row : Text → Text → AssignInput → Event
  assign_selected : Text → AssignInput → Event
  click_delete : TaskView → Event
  click_delete_selected undo_click toast_gone : Event
  load_answer : List TaskView → Event
  teams_answer : List Team → Event
  delete_answer : List Text → Text → List TaskView → Event
  call_answer : List Text → Event
  refusal bulk_refusal : Text → Event
  bulk_answer : List (List TaskView) → Event

abbrev pub fresh : List Text → Backlog
fresh tags = record {
  panel = post (Request.backlog_list tags ∷ []) empty_panel;
  tasks = none;
  teams = [];
  tags = tags;
  opened = none;
  target = none;
  busy = false;
  running = none;
}

abbrev pub with_panel : Panel → Backlog → Backlog
with_panel p s = record s { panel = p }

abbrev pub step : Event → Backlog → Backlog
step (click_row id) s = toggle_task id s
step (open_task id) s = record s { opened = some id }
step click_clear s = with_panel (choose [] s.panel) s
step close_task s = record s { opened = none }
step (task_changed tags) s = with_panel (changed_panel tags s) s
step (filter_by tags) s = record s {
  tags = tags;
  panel = refresh (Request.backlog_list tags) s.panel;
}
step (pick_status id status) s =
    with_panel (post (update_task id (record no_change { status = put status }) ∷ []) s.panel) s
step (click_assign who) s = target_clicked who s
step close_popover s = record s { target = none }
step (assign_row id now input) s = assign_tasks now (id ∷ []) input s
step (assign_selected now input) s = assign_tasks now s.panel.selected input s
step (click_delete t) s = delete_one t s
step click_delete_selected s = delete_selected s
step undo_click s = with_panel (click_undo_on s.panel) s
step toast_gone s = with_panel (hide_toast s.panel) s
step (load_answer ts) s = backlog_loaded ts s
step (teams_answer ts) s = record s { teams = ts }
step (delete_answer tags title deleted) s = one_deleted tags title deleted s
step (call_answer tags) s = with_panel (changed_panel tags s) s
step (refusal e) s = with_panel (complain e s.panel) s
step (bulk_refusal e) s = bulk_refused e s
step (bulk_answer results) s = bulk_answered results s
