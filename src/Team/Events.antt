-- ===== src/Team/Events.antt =====
-- What happens to the page of a team: clicks, typing, and the answers to its calls.
use task_man.Prelude.{ℕ, Bool, true, false, not, List, [], Option, none, some}
use task_man.Text.{Text}
use task_man.Api.Types.{SystemRole, Member, TaskView, TeamBoardResponse}
use task_man.Panel.{Panel, choose, click_undo_on, hide_toast}
use task_man.Team.Page.{
  BoardRef, reload_at, TeamPage, TeamView, MembersPanel, QuickAddResult, reload_all, page_failed,
  board_loaded, board_refused, team_switched, tags_changed, show_board, toggle_select,
  filter_clicked, group_add,
}
use task_man.Team.Bulk.{
  bulk_reassign, bulk_unassign, bulk_set_due, bulk_mark_done, bulk_delete, action_answered,
  action_refused,
}
use task_man.Team.Members.{
  with_members, open_members, close_members, members_closed, start_edit, cancel_edit, save_edit,
  edit_saved, remove_member, member_removed, start_enable_login, cancel_enable_login, not_busy,
  confirm_enable_login, login_enabled, handle_reset_password, password_reset,
  handle_toggle_disabled, disabled_toggled, submit_add_member, member_added, submit_rename,
  submit_delete_team, leave_page,
}

-- What is typed in the panel of the members.
pub data Field : Type 0 where
  edit_name_field edit_email_field edit_role_field add_name_field add_email_field add_role_field
        rename_field :
      Field

abbrev pub type_in : Field → Text → MembersPanel → MembersPanel
type_in edit_name_field v m = record m { edit_name = v }
type_in edit_email_field v m = record m { edit_email = v }
type_in edit_role_field v m = record m { edit_role = v }
type_in add_name_field v m = record m { add_name = v }
type_in add_email_field v m = record m { add_email = v }
type_in add_role_field v m = record m { add_role = v }
type_in rename_field v m = record m { rename_draft = v }

-- An answer carries the board that its closure reloads.
pub data Event : Type 0 where
  board_answer : TeamBoardResponse → Event
  board_refusal : ℕ → Text → Event
  switch_team : Text → Event
  filter_tags : List Text → Event
  click_row click_filter open_task : Text → Event
  click_clear click_grouped click_summary close_summary close_task toast_gone undo_click : Event
  task_changed : BoardRef → Event
  show_view : TeamView → Event
  click_back : Event
  quick_add : Text → Option Text → QuickAddResult → Event
  call_answer : BoardRef → Event
  refusal : Text → Event
  click_reassign click_due : Text → Event
  click_unassign click_done click_delete : Event
  action_answer : ℕ → List (List TaskView) → Event
  action_refusal : ℕ → Text → Event
  members_open members_close members_gone : Event
  type_field : Field → Text → Event
  pick_role : SystemRole → Event
  click_edit : Member → Event
  click_cancel_edit click_save : Event
  edit_answer : BoardRef → Event
  click_remove : Bool → Text → Event
  remove_answer : BoardRef → Text → Event
  click_enable click_confirm_enable : Member → Event
  click_cancel_enable : Event
  enable_answer : BoardRef → Text → Text → Event
  reset_answer : Text → Text → Event
  click_reset click_disable : Bool → Member → Event
  disable_answer : BoardRef → Event
  busy_refusal : Text → Event
  hide_password : Event
  set_copied : Bool → Event
  click_add click_rename : Event
  add_answer rename_answer : BoardRef → Event
  click_delete_team : Bool → Event
  delete_team_answer : Event

abbrev pub with_panel : Panel → TeamPage → TeamPage
with_panel p s = record s { panel = p }

abbrev pub view_step : Event → TeamPage → TeamPage
view_step (board_answer b) s = board_loaded b s
view_step (board_refusal status e) s = board_refused status e s
view_step (switch_team team) s = team_switched team s
view_step (filter_tags tags) s = tags_changed tags s
view_step (click_row id) s = toggle_select id s
view_step (click_filter id) s = filter_clicked id s
view_step (open_task id) s = record s { opened = some id }
view_step click_clear s = with_panel (choose [] s.panel) s
view_step click_grouped s = record s { grouped = not s.grouped }
view_step click_summary s = record s { summary_open = true }
view_step close_summary s = record s { summary_open = false }
view_step close_task s = record s { opened = none }
view_step (task_changed b) s = reload_all b s
view_step toast_gone s = with_panel (hide_toast s.panel) s
view_step undo_click s = with_panel (click_undo_on s.panel) s
view_step (show_view TeamView.board_view) s = show_board s
view_step (show_view v) s = record s { view = v }
view_step click_back s = leave_page s
view_step (quick_add now member r) s = group_add now member r s
view_step (call_answer b) s = reload_all b s
view_step (refusal e) s = page_failed e s
view_step (click_reassign member) s = bulk_reassign member s
view_step (click_due due) s = bulk_set_due due s
view_step click_unassign s = bulk_unassign s
view_step click_done s = bulk_mark_done s
view_step click_delete s = bulk_delete s
view_step (action_answer n results) s = action_answered n results s
view_step (action_refusal n e) s = action_refused n e s
view_step _ s = s

abbrev pub members_step : Event → TeamPage → TeamPage
members_step members_open s = open_members s
members_step members_close s = close_members s
members_step members_gone s = members_closed s
members_step (type_field f v) s = with_members (type_in f v s.members) s
members_step (pick_role r) s = with_members (record s.members { enable_role = r }) s
members_step (click_edit m) s = start_edit m s
members_step click_cancel_edit s = cancel_edit s
members_step click_save s = save_edit s
members_step (edit_answer b) s = edit_saved b s
members_step (click_remove confirmed id) s = remove_member confirmed id s
members_step (remove_answer b id) s = member_removed b id s
members_step (click_enable m) s = start_enable_login m s
members_step (click_confirm_enable m) s = confirm_enable_login m s
members_step click_cancel_enable s = cancel_enable_login s
members_step (enable_answer b id password) s = login_enabled b id password s
members_step (reset_answer id password) s = password_reset id password s
members_step (click_reset confirmed m) s = handle_reset_password confirmed m s
members_step (click_disable confirmed m) s = handle_toggle_disabled confirmed m s
members_step (disable_answer b) s = disabled_toggled b s
members_step (busy_refusal e) s = page_failed e (not_busy s)
members_step hide_password s = with_members (record s.members { revealed = none }) s
members_step (set_copied b) s = with_members (record s.members { copied = b }) s
members_step click_add s = submit_add_member s
members_step (add_answer b) s = member_added b s
members_step click_rename s = submit_rename s
members_step (rename_answer b) s = reload_at b s
members_step (click_delete_team confirmed) s = submit_delete_team confirmed s
members_step delete_team_answer s = leave_page s
members_step _ s = s

-- Each event is one of the page's or one of the panel's.
abbrev pub step : Event → TeamPage → TeamPage
step e s = members_step e (view_step e s)
