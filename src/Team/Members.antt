-- ===== src/Team/Members.antt =====
-- ui/src/views/TeamPage.tsx: the panel of the members, and the deletion of the team.
-- The answers of `confirm` are arguments; `revealed` and the passwords come with the server's answers.
use task_man.Prelude.{
  Bool, true, false, not, ◌&&◌, List, [], ◌∷◌, Option, none, some, if◌then◌else◌, get_or, suc,
}
use task_man.Text.{Text, trim, is_empty, text_eq}
use task_man.Api.Types.{SystemRole, Member, TaskView, absent, put}
use task_man.Api.Requests.{
  Request, MemberPatch, update_team, delete_team, create_member, update_member, delete_member,
  reset_password, enable_login,
}
use task_man.Panel.{post}
use task_man.Team.{all_tasks}
use task_man.Team.Page.{BoardRef, reload_at, TeamPage, MembersPanel, enabled_login, reset_login}

abbrev pub with_members : MembersPanel → TeamPage → TeamPage
with_members m s = record s { members = m }

abbrev pub send_one : Request → TeamPage → TeamPage
send_one r s = record s { panel = post (r ∷ []) s.panel }

abbrev pub open_members : TeamPage → TeamPage
open_members s = with_members (record s.members { is_open = true; is_closing = false }) s

-- Closing starts, and ends after its delay.
abbrev pub close_members : TeamPage → TeamPage
close_members s = with_members (record s.members { is_closing = true }) s

abbrev pub members_closed : TeamPage → TeamPage
members_closed s = with_members (record s.members { is_open = false; is_closing = false }) s

abbrev pub start_edit : Member → TeamPage → TeamPage
start_edit m s =
    with_members
      (record s.members {
        editing = some m.id;
        edit_name = m.name;
        edit_email = get_or m.email [];
        edit_role = get_or m.role [];
      })
      s

abbrev pub cancel_edit : TeamPage → TeamPage
cancel_edit s = with_members (record s.members { editing = none }) s

abbrev pub edit_patch : MembersPanel → MemberPatch
edit_patch m = record {
  name = put (trim m.edit_name);
  email = put (trim m.edit_email);
  role = put (trim m.edit_role);
  disabled = absent;
}

-- `if (!editingId) return;` and `if (!name) return;`
unfoldable pub save_edit : TeamPage → TeamPage
save_edit s =
    if is_empty (get_or s.members.editing [])
    then s
    else if is_empty (trim s.members.edit_name)
    then s
    else send_one (update_member (get_or s.members.editing []) (edit_patch s.members)) s

abbrev pub edit_saved : BoardRef → TeamPage → TeamPage
edit_saved b s = reload_at b (cancel_edit s)

unfoldable pub remove_member : Bool → Text → TeamPage → TeamPage
remove_member confirmed id s = if not confirmed then s else send_one (delete_member id) s

abbrev pub unless_text : Option Text → Text → Option Text
unless_text none id = none
unless_text (some f) id = if text_eq f id then none else some f

unfoldable pub member_removed : BoardRef → Text → TeamPage → TeamPage
member_removed b id s = reload_at b (record s {
  members = record s.members { editing = unless_text s.members.editing id };
  filter = unless_text s.filter id;
})

abbrev pub start_enable_login : Member → TeamPage → TeamPage
start_enable_login m s =
    with_members
      (record s.members { revealed = none; enabling = some m.id; enable_role = SystemRole.user }) s

abbrev pub cancel_enable_login : TeamPage → TeamPage
cancel_enable_login s = with_members (record s.members { enabling = none }) s

abbrev pub take_busy : Member → TeamPage → TeamPage
take_busy m s = with_members (record s.members { busy = some m.id }) s

abbrev pub not_busy : TeamPage → TeamPage
not_busy s = with_members (record s.members { busy = none }) s

unfoldable pub confirm_enable_login : Member → TeamPage → TeamPage
confirm_enable_login m s =
    if is_empty (get_or m.email [])
    then s
    else send_one (enable_login m.id s.members.enable_role) (take_busy m s)

unfoldable pub login_enabled : BoardRef → Text → Text → TeamPage → TeamPage
login_enabled b id password s = reload_at b (
    with_members
      (record s.members {
        enabling = none;
        busy = none;
        revealed = some (record { member_id = id; password = password; kind = enabled_login });
      })
      s)

unfoldable pub handle_reset_password : Bool → Member → TeamPage → TeamPage
handle_reset_password confirmed m s =
    if not confirmed
    then s
    else send_one (reset_password m.id)
        (with_members (record s.members { revealed = none; busy = some m.id }) s)

unfoldable pub password_reset : Text → Text → TeamPage → TeamPage
password_reset id password s =
    with_members
      (record s.members {
        busy = none;
        revealed = some (record { member_id = id; password = password; kind = reset_login });
      })
      s

-- Disabling asks first.
unfoldable pub handle_toggle_disabled : Bool → Member → TeamPage → TeamPage
handle_toggle_disabled confirmed m s =
    let next = not (get_or m.disabled false) in
    if next && not confirmed
    then s
    else send_one
        (update_member m.id
          (record { name = absent; email = absent; role = absent; disabled = put next }))
        (take_busy m s)

abbrev pub disabled_toggled : BoardRef → TeamPage → TeamPage
disabled_toggled b s = reload_at b (not_busy s)

abbrev pub or_none : Text → Option Text
or_none s = if is_empty s then none else some s

unfoldable pub submit_add_member : TeamPage → TeamPage
submit_add_member s =
    if is_empty (trim s.members.add_name)
    then s
    else send_one
        (create_member (trim s.members.add_name) (or_none (trim s.members.add_email))
          (or_none (trim s.members.add_role)) (s.team_id ∷ []))
        s

unfoldable pub member_added : BoardRef → TeamPage → TeamPage
member_added b s =
    reload_at b (with_members (record s.members { add_name = []; add_email = []; add_role = [] }) s)

unfoldable pub submit_rename : TeamPage → TeamPage
submit_rename s =
    if is_empty (trim s.members.rename_draft)
    then s
    else send_one (update_team s.team_id (trim s.members.rename_draft)) s

abbrev pub no_tasks : List TaskView → Bool
no_tasks [] = true
no_tasks (t ∷ ts) = false

unfoldable pub submit_delete_team : Bool → TeamPage → TeamPage
submit_delete_team confirmed s =
    if not (no_tasks (all_tasks s.board))
    then s
    else if not confirmed
    then s
    else send_one (delete_team s.team_id) s

abbrev pub leave_page : TeamPage → TeamPage
leave_page s = record s { left = suc s.left }
