-- ===== src/Backlog/Restored.antt =====
-- The undo of handing parked tasks to a team, against their calls.
use task_man.Prelude.{◌≡◌, [], none}
use task_man.Text.{Text}
use task_man.Api.Types.{Horizon, TaskView}
use task_man.Backlog.{Backlog}

-- A parked task: in the backlog, with no team, no assignee, no due date and no week.
pub record IsParked (t : TaskView) : Type 0 where
  pub horizon : t.horizon ≡ Horizon.backlog
  pub period : t.period ≡ []
  pub due_date : t.due_date ≡ none
  pub team_id : t.team_id ≡ none
  pub assignee_id : t.assignee_id ≡ none
  pub week_of : t.week_of ≡ none
