-- ===== src/Team/Page.antt =====
-- ui/src/views/TeamPage.tsx: the page's state, its loading, its
-- selection and the tasks that it creates.
use task_man.Prelude.{
  ℕ, suc, ◌==◌, Bool, false, List, [], ◌∷◌, Option, none, some, if◌then◌else◌, or_else, any_of,
  keep_if,
}
use task_man.Text.{Text, text_eq}
use task_man.Api.Types.{
  Horizon, SystemRole, Priority, Recurrence, TeamBoardResponse, CreateTaskInput,
}
use task_man.Api.Requests.{Request, team_board, create_task}
use task_man.Picks.{is_none_left, toggled}
use task_man.Panel.{Panel, empty_panel, post, refresh, refresh_all, complain, choose, hide_toast}
use task_man.Team.{all_tasks, resolve_assignee}

pub data TeamView : Type 0 where
  board_view rollover_view history_view : TeamView

pub data CredKind : Type 0 where
  enabled_login reset_login : CredKind

pub record CredReveal : Type 0 where
  pub member_id : Text
  pub password : Text
  pub kind : CredKind

pub record MembersPanel : Type 0 where
  pub is_open : Bool
  pub is_closing : Bool
  pub editing : Option Text
  pub edit_name : Text
  pub edit_email : Text
  pub edit_role : Text
  pub add_name : Text
  pub add_email : Text
  pub add_role : Text
  pub rename_draft : Text
  pub enabling : Option Text
  pub enable_role : SystemRole
  pub revealed : Option CredReveal
  pub copied : Bool
  pub busy : Option Text

-- What a closure was made under: its `reload` asks for this board.
pub record BoardRef : Type 0 where
  pub team_id : Text
  pub tags : List Text

-- An action on the selection that waits for its answer: what the toast then says, and what its undo
-- sends; a deletion's undo comes with the answer.
pub data Waiting : Type 0 where
  patching : BoardRef → Text → List Request → Waiting
  deleting : BoardRef → ℕ → Waiting

-- `left` counts the calls of `onBack`; `running` holds the actions that are awaited, the last first.
pub record TeamPage : Type 0 where
  pub team_id : Text
  pub panel : Panel
  pub board : Option TeamBoardResponse
  pub opened : Option Text
  pub summary_open : Bool
  pub filter : Option Text
  pub grouped : Bool
  pub view : TeamView
  pub tags : List Text
  pub members : MembersPanel
  pub running : List Waiting
  pub left : ℕ

abbrev pub closed_members : MembersPanel
closed_members = record {
  is_open = false;
  is_closing = false;
  editing = none;
  edit_name = [];
  edit_email = [];
  edit_role = [];
  add_name = [];
  add_email = [];
  add_role = [];
  rename_draft = [];
  enabling = none;
  enable_role = SystemRole.user;
  revealed = none;
  copied = false;
  busy = none;
}

abbrev pub here : TeamPage → BoardRef
here s = record { team_id = s.team_id; tags = s.tags }

abbrev pub board_of : BoardRef → Request
board_of b = team_board b.team_id b.tags

unfoldable pub reload_at : BoardRef → TeamPage → TeamPage
reload_at b s = record s { panel = refresh (board_of b) s.panel }

-- `reload()`, alone and with `notifyTasksChanged()`.
abbrev pub reload_board : TeamPage → TeamPage
reload_board s = reload_at (here s) s

abbrev pub reload_all : BoardRef → TeamPage → TeamPage
reload_all b s = record s { panel = refresh_all (board_of b) s.panel }

abbrev pub page_failed : Text → TeamPage → TeamPage
page_failed e s = record s { panel = complain e s.panel }

abbrev pub opened_page : Text → List Text → TeamPage
opened_page team tags = record {
  team_id = team;
  panel = post (team_board team tags ∷ []) empty_panel;
  board = none;
  opened = none;
  summary_open = false;
  filter = none;
  grouped = false;
  view = TeamView.board_view;
  tags = tags;
  members = closed_members;
  running = [];
  left = 0;
}

-- The answer to `reload`; the draft of the name follows the board.
unfoldable pub board_loaded : TeamBoardResponse → TeamPage → TeamPage
board_loaded b s = record s {
  board = some b;
  panel =
      choose (keep_if (λ id. any_of (λ t. text_eq t.id id) (all_tasks (some b))) s.panel.selected)
        s.panel;
  members = record s.members { rename_draft = b.team.name };
}

-- Its refusal: a team that is gone leaves the page.
unfoldable pub board_refused : ℕ → Text → TeamPage → TeamPage
board_refused status e s = if status == 404 then record s { left = suc s.left } else page_failed e s

-- `teamId` changes: the view's own state starts afresh, the toast goes and the board is asked for.
unfoldable pub team_switched : Text → TeamPage → TeamPage
team_switched team s =
    let t = record s {
      team_id = team;
      filter = none;
      grouped = false;
      summary_open = false;
      view = TeamView.board_view;
      members = record s.members { is_open = false; editing = none };
      panel = hide_toast (choose [] s.panel);
    } in
    reload_board t

unfoldable pub tags_changed : List Text → TeamPage → TeamPage
tags_changed tags s = reload_board (record s { tags = tags })

abbrev pub show_board : TeamPage → TeamPage
show_board s = reload_board (record s { view = TeamView.board_view })

unfoldable pub toggle_select : Text → TeamPage → TeamPage
toggle_select id s =
    let shown = if is_none_left s.panel.selected then hide_toast s.panel else s.panel in
    record s { panel = choose (toggled id s.panel.selected) shown }

abbrev pub same_filter : Option Text → Text → Bool
same_filter none id = false
same_filter (some f) id = text_eq f id

unfoldable pub filter_clicked : Text → TeamPage → TeamPage
filter_clicked id s = record s { filter = if same_filter s.filter id then none else some id }

-- What the quick-add bar gives.
pub record QuickAddResult : Type 0 where
  pub title : Text
  pub priority : Option Priority
  pub due_date : Option Text
  pub recurrence : Option Recurrence
  pub assignee_name : Option Text
  pub horizon : Option Horizon
  pub tags : List Text

abbrev pub some_tags : List Text → Option (List Text)
some_tags [] = none
some_tags (t ∷ ts) = some (t ∷ ts)

-- `now` is `today()`.
abbrev pub team_input : Text → Text → QuickAddResult → Option Text → CreateTaskInput
team_input now team r who = record {
  title = r.title;
  notes = none;
  horizon = Horizon.daily;
  period = now;
  due_date = r.due_date;
  status = none;
  priority = r.priority;
  parent_id = none;
  team_id = some team;
  assignee_id = who;
  recurrence = r.recurrence;
  tags = some_tags r.tags;
}

unfoldable pub create_on_team : Text → QuickAddResult → Option Text → TeamPage → TeamPage
create_on_team now r who s = record s {
  panel = post (create_task (team_input now s.team_id r who) ∷ []) s.panel;
}

-- The quick-add bar of a member's section, and of the unassigned one.
unfoldable pub group_add : Text → Option Text → QuickAddResult → TeamPage → TeamPage
group_add now member r s =
    create_on_team now r (or_else (resolve_assignee r.assignee_name s.board) member) s
