-- ===== src/SummaryPanel/Tests.antt =====
-- A run of the panel of a summary, and the witness of its theorem.
use task_man.Prelude.{refl, inl, [], none}
use task_man.Text.{lit, text_run}
use task_man.Api.Types.{SummaryResponse}
use task_man.SummaryPanel.{SummaryPanel, fetch_summary, opened_summary}
use task_man.SummaryPanel.Kept.{step, answer, start, next, IsOffered, IsHonest, Reach-IsHonest}

abbrev july : SummaryResponse
july = record {
  from = lit "2026-07-01";
  to = lit "2026-07-31";
  team_id = none;
  team_name = none;
  assignee_id = none;
  assignee_name = none;
  completed = [];
  updated = [];
  added = [];
}

abbrev july_panel : SummaryPanel
july_panel = opened_summary none none july.from july.to

july-IsOffered : IsOffered (answer 1 july) july_panel
unfolding fetch_summary text_run
july-IsOffered = inl (refl, refl)

Reach-IsHonest_example : IsHonest (step (answer 1 july) july_panel)
Reach-IsHonest_example =
    Reach-IsHonest (next (start none none july.from july.to) (answer 1 july) july-IsOffered)
