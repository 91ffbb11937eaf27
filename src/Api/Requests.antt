-- ===== src/Api/Requests.antt =====
-- The calls of `api` (ui/src/api.ts, lines 337 to 453) that the views make, with their arguments.
use task_man.Prelude.{ℕ, Bool, List, Option}
use task_man.Text.{Text}
use task_man.Api.Types.{SystemRole, TaskView, CreateTaskInput, Change, UpdateTaskInput}

-- The patch of `updateMember`: the fields that the views send.
pub record MemberPatch : Type 0 where
  pub name : Change Text
  pub email : Change Text
  pub role : Change Text
  pub disabled : Change Bool

pub data Request : Type 0 where
  attention_view backlog_list : List Text → Request
  reschedule : List Text → Request
  get_task : Text → Request
  create_task : CreateTaskInput → Request
  update_task : Text → UpdateTaskInput → Request
  delete_task : Text → Request
  restore_tasks : List TaskView → Request
  add_note : Text → Text → Option Text → Request
  edit_note : Text → Text → Text → Option Text → Request
  delete_note : Text → Text → Request
  team_board : Text → List Text → Request
  team_rollover : Text → Request
  team_history : Text → ℕ → ℕ → List Text → Request
  update_team : Text → Text → Request
  delete_team : Text → Request
  create_member : Text → Option Text → Option Text → List Text → Request
  update_member : Text → MemberPatch → Request
  delete_member reset_password : Text → Request
  enable_login : Text → SystemRole → Request
  summary : Text → Text → Option Text → Option Text → Request
