-- ===== src/Team/Steps.antt =====
-- What holds of the page of a team at every moment.
use task_man.Prelude.{
  ◌==◌, ◌≡◌, refl, true, false, not, List, [], ◌∷◌, ◌&&◌, none, some, if◌then◌else◌, get_or,
}
use task_man.Text.{Text, is_empty, trim}
use task_man.Api.Requests.{Request}
use task_man.Picks.{has}
use task_man.Panel.Kept.{loaded-All}
use task_man.Team.{all_tasks}
use task_man.Team.Page.{
  TeamPage, TeamView, opened_page, page_failed, board_loaded, board_refused, team_switched,
  tags_changed, filter_clicked, create_on_team, group_add,
}
use task_man.Team.Bulk.{bulk_reassign, bulk_unassign}
use task_man.Team.Members.{
  with_members, send_one, take_busy, no_tasks, save_edit, remove_member, member_removed,
  confirm_enable_login, login_enabled, handle_reset_password, password_reset,
  handle_toggle_disabled, submit_add_member, member_added, submit_rename, submit_delete_team,
}
use task_man.Team.Kept.{
  IsProper, board_ids, IsProperPage, unless-Proper, send-Proper, reload-Proper, reload_all-Proper,
  assign-Proper, due-Proper, done-Proper, delete-Proper,
}
use task_man.Team.Answers.{answered-Proper, refused-Proper, undo_click-Proper, toggle-Proper}
use task_man.Team.Events.{
  Event, step, view_step, members_step, board_answer, board_refusal, switch_team, filter_tags,
  click_row, click_filter, open_task, click_clear, click_grouped, click_summary, close_summary,
  close_task, task_changed, toast_gone, undo_click, show_view, click_back, quick_add, call_answer,
  refusal, click_reassign, click_due, click_unassign, click_done, click_delete, action_answer,
  action_refusal, members_open, members_close, members_gone, type_field, pick_role, click_edit,
  click_cancel_edit, click_save, edit_answer, click_remove, remove_answer, click_enable,
  click_confirm_enable, click_cancel_enable, enable_answer, reset_answer, click_reset,
  click_disable, disable_answer, busy_refusal, hide_password, set_copied, click_add, add_answer,
  click_rename, rename_answer, click_delete_team, delete_team_answer,
}

-- The rows on the screen are those of the board.
abbrev pub IsOffered : Event → TeamPage → Type 0
IsOffered (click_row id) s = has id (board_ids s) ≡ true
IsOffered _ s = Unit

pub data Reach : TeamPage → Type 0 where
  start : (team : Text) (tags : List Text) → Reach (opened_page team tags)
  next : {s : TeamPage} → Reach s → (e : Event) → IsOffered e s → Reach (step e s)

view_step-Proper :
    (e : Event) (s : TeamPage) → IsOffered e s → IsProperPage s → IsProperPage (view_step e s)
unfolding board_loaded board_refused team_switched tags_changed filter_clicked create_on_team
    group_add bulk_reassign bulk_unassign
view_step-Proper (board_answer b) s o h = record {
  shown = loaded-All (all_tasks (some b)) s.panel.selected;
  sent = h.sent;
  undo = h.undo;
  awaited = h.awaited;
}
view_step-Proper (board_refusal status e) s o h =
    unless-Proper (status == 404) _ (page_failed e s)
      (record { shown = h.shown; sent = h.sent; undo = h.undo; awaited = h.awaited })
      (record { shown = h.shown; sent = h.sent; undo = h.undo; awaited = h.awaited })
view_step-Proper (switch_team team) s o h =
    reload-Proper _ _ (record { shown = tt; sent = h.sent; undo = tt; awaited = h.awaited })
view_step-Proper (filter_tags tags) s o h =
    reload-Proper _ _
      (record { shown = h.shown; sent = h.sent; undo = h.undo; awaited = h.awaited })
view_step-Proper (click_row id) s o h = toggle-Proper id s o h
view_step-Proper click_clear s o h = record {
  shown = tt;
  sent = h.sent;
  undo = h.undo;
  awaited = h.awaited;
}
view_step-Proper toast_gone s o h = record {
  shown = h.shown;
  sent = h.sent;
  undo = tt;
  awaited = h.awaited;
}
view_step-Proper undo_click s o h = undo_click-Proper s h
view_step-Proper (task_changed b) s o h = reload_all-Proper b s h
view_step-Proper (call_answer b) s o h = reload_all-Proper b s h
view_step-Proper (show_view TeamView.board_view) s o h =
    reload-Proper _ _
      (record { shown = h.shown; sent = h.sent; undo = h.undo; awaited = h.awaited })
view_step-Proper (quick_add now member r) s o h = send-Proper _ s (tt, tt) h
view_step-Proper (click_reassign member) s o h = assign-Proper (some member) _ s h
view_step-Proper (click_due due) s o h = due-Proper due s h
view_step-Proper click_unassign s o h = assign-Proper none _ s h
view_step-Proper click_done s o h = done-Proper s h
view_step-Proper click_delete s o h = delete-Proper s h
view_step-Proper (action_answer n results) s o h = answered-Proper n results s h
view_step-Proper (action_refusal n e) s o h = refused-Proper n e s h
view_step-Proper (click_filter id) s o h = record {
  shown = h.shown;
  sent = h.sent;
  undo = h.undo;
  awaited = h.awaited;
}
view_step-Proper (open_task id) s o h = record {
  shown = h.shown;
  sent = h.sent;
  undo = h.undo;
  awaited = h.awaited;
}
view_step-Proper click_grouped s o h = record {
  shown = h.shown;
  sent = h.sent;
  undo = h.undo;
  awaited = h.awaited;
}
view_step-Proper click_summary s o h = record {
  shown = h.shown;
  sent = h.sent;
  undo = h.undo;
  awaited = h.awaited;
}
view_step-Proper close_summary s o h = record {
  shown = h.shown;
  sent = h.sent;
  undo = h.undo;
  awaited = h.awaited;
}
view_step-Proper close_task s o h = record {
  shown = h.shown;
  sent = h.sent;
  undo = h.undo;
  awaited = h.awaited;
}
view_step-Proper (show_view TeamView.rollover_view) s o h = record {
  shown = h.shown;
  sent = h.sent;
  undo = h.undo;
  awaited = h.awaited;
}
view_step-Proper (show_view TeamView.history_view) s o h = record {
  shown = h.shown;
  sent = h.sent;
  undo = h.undo;
  awaited = h.awaited;
}
view_step-Proper click_back s o h = record {
  shown = h.shown;
  sent = h.sent;
  undo = h.undo;
  awaited = h.awaited;
}
view_step-Proper (refusal e) s o h = record {
  shown = h.shown;
  sent = h.sent;
  undo = h.undo;
  awaited = h.awaited;
}
view_step-Proper _ s o h = h

named-Proper :
    (name : Text) (r : Request) (s : TeamPage)
    → (is_empty name ≡ false → IsProper r)
    → IsProperPage s
    → IsProperPage (if is_empty name then s else send_one r s)
named-Proper [] r s p h = h
named-Proper (c ∷ name) r s p h = send-Proper (r ∷ []) s (p refl, tt) h

sent_one : (r : Request) (s : TeamPage) → IsProper r → IsProperPage s → IsProperPage (send_one r s)
sent_one r s p h = send-Proper (r ∷ []) s (p, tt) h

members_step-Proper : (e : Event) (s : TeamPage) → IsProperPage s → IsProperPage (members_step e s)
unfolding save_edit remove_member member_removed confirm_enable_login login_enabled
    handle_reset_password password_reset handle_toggle_disabled submit_add_member member_added
    submit_rename submit_delete_team
members_step-Proper click_save s h =
    unless-Proper (is_empty (get_or s.members.editing [])) s
      (if is_empty (trim s.members.edit_name) then s else _) h
      (named-Proper (trim s.members.edit_name) _ s (λ e. e) h)
members_step-Proper (click_remove confirmed id) s h =
    unless-Proper (not confirmed) s (send_one _ s) h (sent_one _ s tt h)
members_step-Proper click_add s h = named-Proper (trim s.members.add_name) _ s (λ e. e) h
members_step-Proper click_rename s h = named-Proper (trim s.members.rename_draft) _ s (λ e. e) h
members_step-Proper members_open s h = record {
  shown = h.shown;
  sent = h.sent;
  undo = h.undo;
  awaited = h.awaited;
}
members_step-Proper members_close s h = record {
  shown = h.shown;
  sent = h.sent;
  undo = h.undo;
  awaited = h.awaited;
}
members_step-Proper members_gone s h = record {
  shown = h.shown;
  sent = h.sent;
  undo = h.undo;
  awaited = h.awaited;
}
members_step-Proper (type_field f v) s h = record {
  shown = h.shown;
  sent = h.sent;
  undo = h.undo;
  awaited = h.awaited;
}
members_step-Proper (pick_role r) s h = record {
  shown = h.shown;
  sent = h.sent;
  undo = h.undo;
  awaited = h.awaited;
}
members_step-Proper (click_edit m) s h = record {
  shown = h.shown;
  sent = h.sent;
  undo = h.undo;
  awaited = h.awaited;
}
members_step-Proper click_cancel_edit s h = record {
  shown = h.shown;
  sent = h.sent;
  undo = h.undo;
  awaited = h.awaited;
}
members_step-Proper (click_enable m) s h = record {
  shown = h.shown;
  sent = h.sent;
  undo = h.undo;
  awaited = h.awaited;
}
members_step-Proper click_cancel_enable s h = record {
  shown = h.shown;
  sent = h.sent;
  undo = h.undo;
  awaited = h.awaited;
}
members_step-Proper (reset_answer id password) s h = record {
  shown = h.shown;
  sent = h.sent;
  undo = h.undo;
  awaited = h.awaited;
}
members_step-Proper (busy_refusal e) s h = record {
  shown = h.shown;
  sent = h.sent;
  undo = h.undo;
  awaited = h.awaited;
}
members_step-Proper hide_password s h = record {
  shown = h.shown;
  sent = h.sent;
  undo = h.undo;
  awaited = h.awaited;
}
members_step-Proper (set_copied b) s h = record {
  shown = h.shown;
  sent = h.sent;
  undo = h.undo;
  awaited = h.awaited;
}
members_step-Proper delete_team_answer s h = record {
  shown = h.shown;
  sent = h.sent;
  undo = h.undo;
  awaited = h.awaited;
}
members_step-Proper (edit_answer b) s h =
    reload-Proper b _
      (record { shown = h.shown; sent = h.sent; undo = h.undo; awaited = h.awaited })
members_step-Proper (remove_answer b id) s h =
    reload-Proper b _
      (record { shown = h.shown; sent = h.sent; undo = h.undo; awaited = h.awaited })
members_step-Proper (enable_answer b id password) s h =
    reload-Proper b _
      (record { shown = h.shown; sent = h.sent; undo = h.undo; awaited = h.awaited })
members_step-Proper (disable_answer b) s h =
    reload-Proper b _
      (record { shown = h.shown; sent = h.sent; undo = h.undo; awaited = h.awaited })
members_step-Proper (add_answer b) s h =
    reload-Proper b _
      (record { shown = h.shown; sent = h.sent; undo = h.undo; awaited = h.awaited })
members_step-Proper (rename_answer b) s h =
    reload-Proper b _
      (record { shown = h.shown; sent = h.sent; undo = h.undo; awaited = h.awaited })
members_step-Proper (click_confirm_enable m) s h =
    unless-Proper (is_empty (get_or m.email [])) s _ h (
      sent_one _ (take_busy m s) tt
        (record { shown = h.shown; sent = h.sent; undo = h.undo; awaited = h.awaited }))
members_step-Proper (click_reset confirmed m) s h = unless-Proper (not confirmed) s _ h (
    sent_one _ (with_members (record s.members { revealed = none; busy = some m.id }) s) tt
      (record { shown = h.shown; sent = h.sent; undo = h.undo; awaited = h.awaited }))
members_step-Proper (click_disable confirmed m) s h =
    unless-Proper (not (get_or m.disabled false) && not confirmed) s _ h (
      sent_one _ (take_busy m s) tt
        (record { shown = h.shown; sent = h.sent; undo = h.undo; awaited = h.awaited }))
members_step-Proper (click_delete_team confirmed) s h =
    unless-Proper (not (no_tasks (all_tasks s.board))) s (if not confirmed then s else send_one _ s)
      h (unless-Proper (not confirmed) s _ h (sent_one _ s tt h))
members_step-Proper _ s h = h

step-Proper : (e : Event) (s : TeamPage) → IsOffered e s → IsProperPage s → IsProperPage (step e s)
step-Proper e s o h = members_step-Proper e (view_step e s) (view_step-Proper e s o h)

-- In every state that the page of a team reaches, each selected identifier is that of a task of the
-- board, and no call that was made, or that an undo makes, gives a member or a team an empty name.
pub Reach-IsProperPage : {s : TeamPage} → Reach s → IsProperPage s
Reach-IsProperPage (start team tags) = record {
  shown = tt;
  sent = (tt, tt);
  undo = tt;
  awaited = tt;
}
Reach-IsProperPage (next {s} r e o) = step-Proper e s o (Reach-IsProperPage r)
