-- ===== src/SummaryPanel.antt =====
-- ui/src/components/SummaryPanel.tsx: the panel of a summary, for a range of dates. `fetch` counts the
-- runs of the effect: the answer to an earlier one is dropped, as `cancelled` has it. `sent` holds the
-- requests, the last one first, each with the run that made it.
mod Kept
mod Tests
use task_man.Prelude.{
  ℕ, suc, ◌==◌, Bool, true, false, not, ◌&&◌, ◌||◌, List, [], ◌∷◌, Option, none, some,
  if◌then◌else◌,
}
use task_man.Text.{Text, text_lt, text_eq, is_empty}
use task_man.Api.Types.{SummaryResponse}
use task_man.Api.Requests.{Request, summary}

pub record SummaryPanel : Type 0 where
  pub team_id : Option Text
  pub assignee_id : Option Text
  pub from : Text
  pub to : Text
  pub summary_data : Option SummaryResponse
  pub loading : Bool
  pub error : Option Text
  pub closing : Bool
  pub fetch : ℕ
  pub sent : List (ℕ × Request)

abbrev pub range_error : SummaryPanel → Bool
range_error s = (not (is_empty s.from) && not (is_empty s.to)) && text_lt s.to s.from

-- The effect, on opening and when the range or the scope changes.
unfoldable pub fetch_summary : SummaryPanel → SummaryPanel
fetch_summary s =
    let t = record s { fetch = suc s.fetch; error = none } in
    if range_error s || (is_empty s.from || is_empty s.to)
    then record t { loading = false; summary_data = none }
    else record t {
      loading = true;
      sent = (suc s.fetch, summary s.from s.to s.team_id s.assignee_id) ∷ s.sent;
    }

abbrev pub opened_summary : Option Text → Option Text → Text → Text → SummaryPanel
opened_summary team who from to = fetch_summary (record {
  team_id = team;
  assignee_id = who;
  from = from;
  to = to;
  summary_data = none;
  loading = true;
  error = none;
  closing = false;
  fetch = 0;
  sent = [];
})

unfoldable pub from_typed : Text → SummaryPanel → SummaryPanel
from_typed v s = if text_eq v s.from then s else fetch_summary (record s { from = v })

unfoldable pub to_typed : Text → SummaryPanel → SummaryPanel
to_typed v s = if text_eq v s.to then s else fetch_summary (record s { to = v })

unfoldable pub summary_answered : ℕ → SummaryResponse → SummaryPanel → SummaryPanel
summary_answered k d s =
    if k == s.fetch then record s { summary_data = some d; loading = false } else s

unfoldable pub summary_refused : ℕ → Text → SummaryPanel → SummaryPanel
summary_refused k e s =
    if k == s.fetch then record s { error = some e; summary_data = none; loading = false } else s
