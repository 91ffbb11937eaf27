-- ===== src/Summary/Tests.antt =====
-- Examples of the CSV file, and the witnesses of its theorems.
use task_man.Prelude.{◌≡◌, refl, false, [], ◌∷◌, none, some, drop}
use task_man.Text.{lit, text_run}
use task_man.Api.Types.{
  Horizon, Status, no_priority, ActivityKind, ActivityEntry, SummaryTask, SummaryResponse,
}
use task_man.Summary.{csv_header, csv_field, to_csv, summary_run}
use task_man.Summary.Reader.{read_csv}
use task_man.Summary.Rows.{summary_rows, read_csv-to_csv}

abbrev quoted_note : ActivityEntry
quoted_note = record {
  id = lit "n1";
  kind = ActivityKind.note;
  date = lit "2026-07-01";
  at = [];
  by = none;
  by_name = some (lit "Ana");
  text = some (lit "said \"ok\", then\r\nleft");
  from = none;
  to = none;
  edited_at = none;
}

abbrev noted_task : SummaryTask
noted_task = record {
  id = lit "t1";
  title = lit "Ship, \"v9\"";
  status = Status.done;
  priority = no_priority;
  horizon = Horizon.daily;
  due_date = none;
  team_id = none;
  team_name = none;
  assignee_id = none;
  assignee_name = none;
  created_at = [];
  closed_date = some (lit "2026-07-01");
  overdue = false;
  notes = quoted_note ∷ [];
}

abbrev two_sections : SummaryResponse
two_sections = record {
  from = lit "2026-07-01";
  to = lit "2026-07-02";
  team_id = none;
  team_name = none;
  assignee_id = none;
  assignee_name = none;
  completed = noted_task ∷ [];
  updated = [];
  added = record noted_task { notes = [] } ∷ [];
}

field_test : csv_field (lit "a\"b") ≡ lit "\"a\"\"b\""
unfolding summary_run text_run
field_test = refl

read_csv-to_csv_example :
    read_csv (drop 1 (to_csv two_sections)) ≡ some (csv_header ∷ summary_rows two_sections)
read_csv-to_csv_example = read_csv-to_csv two_sections
