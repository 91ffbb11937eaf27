-- ===== src/Summary.antt =====
-- ui/src/components/summaryFormat.ts: the summary as CSV and as Markdown.
pub mod Reader
mod Csv
mod Rows
mod Tests
use task_man.Prelude.{
  ℕ, Bool, true, false, List, [], ◌∷◌, ◌++◌, map, Option, none, some, if◌then◌else◌, get_or, length,
  ◌==◌,
}
use task_man.Text.{Text, lit, is_empty, join}
use task_man.Text.Decimal.{show}
use task_man.Api.Types.{
  Horizon, Status, Priority, no_priority, low, medium, high, inherited, ActivityKind, ActivityEntry,
  SummaryTask, SummaryResponse,
}

pub data Section : Type 0 where
  completed updated added : Section

unfoldable pub section_label : Section → Text
section_label completed = lit "Completed"
section_label updated = lit "Updated"
section_label added = lit "New"

-- The texts that stand for the values on the wire.
unfoldable pub status_text : Status → Text
status_text Status.todo = lit "todo"
status_text Status.in_progress = lit "in_progress"
status_text Status.done = lit "done"
status_text Status.cancelled = lit "cancelled"

-- The server sends no inherited member.
unfoldable pub priority_text : Priority → Text
priority_text no_priority = []
priority_text low = lit "low"
priority_text medium = lit "medium"
priority_text high = lit "high"
priority_text (inherited w) = w

unfoldable pub horizon_text : Horizon → Text
horizon_text Horizon.daily = lit "daily"
horizon_text Horizon.weekly = lit "weekly"
horizon_text Horizon.monthly = lit "monthly"
horizon_text Horizon.backlog = lit "backlog"

unfoldable pub kind_text : ActivityKind → Text
kind_text ActivityKind.note = lit "note"
kind_text ActivityKind.status = lit "status"

unfoldable pub csv_header : List Text
csv_header =
    lit "section"
    ∷ lit "task"
    ∷ lit "status"
    ∷ lit "priority"
    ∷ lit "horizon"
    ∷ lit "team"
    ∷ lit "assignee"
    ∷ lit "dueDate"
    ∷ lit "closedDate"
    ∷ lit "overdue"
    ∷ lit "noteDate"
    ∷ lit "noteBy"
    ∷ lit "noteKind"
    ∷ lit "note"
    ∷ []

abbrev pub quote : ℕ
quote = b'"'

-- `value.replace(/"/g, '""')`
unfoldable pub double_quotes : Text → Text
double_quotes [] = []
double_quotes (c ∷ s) =
    let rest = double_quotes s in if c == quote then quote ∷ quote ∷ rest else c ∷ rest

unfoldable pub csv_field : Text → Text
csv_field value = quote ∷ (double_quotes value ++ quote ∷ [])

abbrev pub crlf : Text
crlf = 13 ∷ 10 ∷ []

unfoldable pub csv_row : List Text → Text
csv_row fields = join (lit ",") (map csv_field fields) ++ crlf

-- `${v}` of an optional text.
abbrev pub shown : Option Text → Text
shown none = lit "undefined"
shown (some s) = s

unfoldable pub note_text : ActivityEntry → Text
note_text n = elim n.kind as (λ k. Text) [
  | ActivityKind.status ↦ shown n.from ++ (lit " → " ++ shown n.to)
  | ActivityKind.note ↦ get_or n.text []
]

unfoldable pub task_csv_base : Section → SummaryTask → List Text
task_csv_base section t =
    section_label section
    ∷ t.title
    ∷ status_text t.status
    ∷ priority_text t.priority
    ∷ horizon_text t.horizon
    ∷ get_or t.team_name []
    ∷ get_or t.assignee_name []
    ∷ get_or t.due_date []
    ∷ get_or t.closed_date []
    ∷ (if t.overdue then lit "true" else lit "false")
    ∷ []

-- The innermost loop of `toCSV`, on the notes of a task.
unfoldable pub notes_csv : List Text → List ActivityEntry → Text → Text
notes_csv base [] out = out
notes_csv base (n ∷ ns) out =
    notes_csv base ns
      (out ++ csv_row (base ++ n.date ∷ get_or n.by_name [] ∷ kind_text n.kind ∷ note_text n ∷ []))

unfoldable pub task_csv : List Text → List ActivityEntry → Text → Text
task_csv base [] out = out ++ csv_row (base ++ [] ∷ [] ∷ [] ∷ [] ∷ [])
task_csv base (n ∷ ns) out = notes_csv base (n ∷ ns) out

unfoldable pub tasks_csv : Section → List SummaryTask → Text → Text
tasks_csv section [] out = out
tasks_csv section (t ∷ ts) out =
    tasks_csv section ts (task_csv (task_csv_base section t) t.notes out)

abbrev pub bom : ℕ
bom = 0xFEFF

unfoldable pub to_csv : SummaryResponse → Text
to_csv s =
    tasks_csv added s.added
      (tasks_csv updated s.updated (tasks_csv completed s.completed (bom ∷ csv_row csv_header)))

abbrev pub meta_if : Bool → Text → List Text
meta_if true t = t ∷ []
meta_if false t = []

abbrev pub closed_meta : Section → Option Text → List Text
closed_meta completed (some (c ∷ s)) = (lit "closed " ++ c ∷ s) ∷ []
closed_meta _ _ = []

abbrev pub filled_meta : Text → Option Text → List Text
filled_meta front (some (c ∷ s)) = (front ++ c ∷ s) ∷ []
filled_meta front _ = []

unfoldable pub task_meta_parts : SummaryTask → Section → List Text
task_meta_parts t section =
    closed_meta section t.closed_date
    ++ (filled_meta [] (some (priority_text t.priority))
        ++ (filled_meta (lit "due ") t.due_date
            ++ (filled_meta [] t.assignee_name ++ meta_if t.overdue (lit "overdue"))))

abbrev pub newline : Text
newline = 10 ∷ []

unfoldable pub note_line : ActivityEntry → Text
note_line n =
    lit "  - " ++ (n.date ++ (lit " · " ++ (get_or n.by_name [] ++ (lit ": " ++ note_text n))))

abbrev pub head_line : Text → List Text → Text
head_line title [] = lit "- **" ++ (title ++ lit "**")
head_line title (m ∷ ms) = lit "- **" ++ (title ++ (lit "** — " ++ join (lit " · ") (m ∷ ms)))

unfoldable pub task_markdown : SummaryTask → Section → Text
task_markdown t section =
    join newline (head_line t.title (task_meta_parts t section) ∷ map note_line t.notes)

unfoldable pub section_markdown : Section → List SummaryTask → Text
section_markdown section [] =
    lit "## " ++ (section_label section ++ (lit " (0)" ++ (newline ++ lit "_none_")))
section_markdown section (t ∷ ts) = join newline (
    (lit "## " ++ (section_label section ++ (lit " (" ++ (show (length (t ∷ ts)) ++ lit ")"))))
    ∷ map (λ u. task_markdown u section) (t ∷ ts))

unfoldable pub to_markdown : SummaryResponse → Text → Text
to_markdown s scope_label =
    join newline (
      (lit "# Summary " ++ (s.from ++ (lit " → " ++ (s.to ++ (lit " · " ++ scope_label)))))
      ∷ section_markdown completed s.completed
      ∷ section_markdown updated s.updated
      ∷ section_markdown added s.added
      ∷ [])
    ++ newline

-- What a test by evaluation unfolds.
unfoldable pub summary_run : Unit {0}
unfolding section_label status_text priority_text horizon_text kind_text csv_header double_quotes
    csv_field csv_row note_text task_csv_base notes_csv task_csv tasks_csv to_csv task_meta_parts
    note_line task_markdown section_markdown to_markdown
summary_run = tt
