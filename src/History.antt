-- ===== src/History.antt =====
-- ui/src/views/TeamHistory.tsx: the closed tasks of a team's past weeks, page by page.
mod Paged
mod Tests
use task_man.Prelude.{
  ℕ, suc, ◌+◌, ltb, Bool, true, false, List, [], ◌∷◌, ◌++◌, Option, none, some, if◌then◌else◌,
  get_or, length,
}
use task_man.Text.{Text}
use task_man.Api.Types.{TaskView, HistoryResponse}
use task_man.Api.Requests.{Request, team_history}

abbrev pub page_size : ℕ
page_size = 50

abbrev pub max_limit : ℕ
max_limit = 200

pub record History : Type 0 where
  pub team_id : Text
  pub tags : List Text
  pub tasks : Option (List TaskView)
  pub has_more : Bool
  pub loading_more : Bool
  pub error : Option Text
  pub opened : Option Text
  pub sent : List Request
  pub changes : ℕ

abbrev pub fetch_page : ℕ → ℕ → History → History
fetch_page offset limit s = record s {
  error = none;
  sent = s.sent ++ team_history s.team_id offset limit s.tags ∷ [];
}

-- The view for a team and a filter; it starts afresh when one of them changes.
unfoldable pub history_for : Text → List Text → History → History
history_for team tags s =
    fetch_page 0 page_size
      (record s { team_id = team; tags = tags; tasks = none; has_more = false })

abbrev pub first_history : Text → List Text → History
first_history team tags = history_for team tags (record {
  team_id = team;
  tags = tags;
  tasks = none;
  has_more = false;
  loading_more = false;
  error = none;
  opened = none;
  sent = [];
  changes = 0;
})

-- The answer to a page; `replace` says whether it stands for the whole list.
abbrev pub joined : Bool → Option (List TaskView) → List TaskView → List TaskView
joined replace none new = new
joined replace (some old) new = if replace then new else old ++ new

unfoldable pub page_answered : Bool → HistoryResponse → History → History
page_answered replace d s = record s {
  tasks = some (joined replace s.tasks d.tasks);
  has_more = d.has_more;
  loading_more = false;
}

unfoldable pub page_refused : Text → History → History
page_refused e s = record s { error = some e; loading_more = false }

unfoldable pub load_more : History → History
load_more s = if s.loading_more then s else elim s.tasks [
  | none ↦ s
  | some ts ↦ fetch_page (length ts) page_size (record s { loading_more = true })
]

abbrev pub at_most : ℕ → ℕ → ℕ
at_most m n = if ltb m n then m else n

abbrev pub at_least : ℕ → ℕ → ℕ
at_least m n = if ltb m n then n else m

abbrev pub reload_limit : History → ℕ
reload_limit s = at_most max_limit (at_least page_size (length (get_or s.tasks [])))

unfoldable pub reload_history : History → History
reload_history s = fetch_page 0 (reload_limit s) s

abbrev pub detail_changed : History → History
detail_changed s = let t = reload_history s in record t { changes = suc t.changes }
