-- ===== src/Api/Patches.antt =====
-- Patches of a task, as ui/src/api.ts (lines 131 to 153) has them.
use task_man.Prelude.{Option, none, some}
use task_man.Text.{Text}
use task_man.Api.Types.{Change, absent, null, put, UpdateTaskInput}

abbrev pub no_change : UpdateTaskInput
no_change = record {
  title = absent;
  notes = absent;
  horizon = absent;
  period = absent;
  due_date = absent;
  status = absent;
  priority = absent;
  parent_id = absent;
  team_id = absent;
  assignee_id = absent;
  recurrence = absent;
  week_of = absent;
  tags = absent;
}

abbrev pub put_or_null : Option Text → Change Text
put_or_null none = null
put_or_null (some s) = put s

abbrev pub put_or_absent : Option Text → Change Text
put_or_absent none = absent
put_or_absent (some s) = put s
