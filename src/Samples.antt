-- ===== src/Samples.antt =====
-- The tasks, the members and the board that the tests run on.
use task_man.Prelude.{[], ◌∷◌, none, some}
use task_man.Text.{lit}
use task_man.Api.Types.{Horizon, Status, Priority, TaskView, Member, TeamBoardResponse}

abbrev pub parked_row : TaskView
parked_row = record {
  id = lit "p";
  title = lit "Plan";
  notes = none;
  horizon = Horizon.backlog;
  period = [];
  due_date = none;
  status = Status.todo;
  priority = Priority.high;
  parent_id = none;
  team_id = none;
  assignee_id = none;
  recurrence = none;
  series_id = none;
  created_at = lit "2026-07-01";
  updated_at = [];
  completed_at = none;
  progress = record { done = 0; total = 0 };
  week_of = none;
  activity = none;
  tags = [];
}

abbrev pub team_row : TaskView
team_row = record parked_row {
  id = lit "b";
  title = lit "Build";
  horizon = Horizon.daily;
  period = lit "2026-07-06";
  due_date = some (lit "2026-07-09");
  priority = Priority.low;
  team_id = some (lit "t1");
  assignee_id = some (lit "m1");
  week_of = some (lit "2026-W28");
}

abbrev pub late_row : TaskView
late_row = record team_row {
  id = lit "c";
  title = lit "Check";
  due_date = some (lit "2026-07-02");
  assignee_id = none;
  week_of = some (lit "2026-W27");
}

abbrev pub sam : Member
sam = record {
  id = lit "m1";
  name = lit "Sam Lee";
  email = some (lit "sam@x.io");
  role = none;
  team_ids = none;
  created_at = [];
  system_role = none;
  disabled = none;
}

abbrev pub sample_board : TeamBoardResponse
sample_board = record {
  team = record {
    id = lit "t1";
    name = lit "Core";
    created_at = [];
    member_count = none;
    open_count = none;
    overdue_count = none;
  };
  members = record { member = sam; tasks = team_row ∷ [] } ∷ [];
  unassigned = late_row ∷ [];
  week = lit "2026-W28";
  stale_open = 1;
}
