-- ===== src/Team.antt =====
-- ui/src/views/TeamPage.tsx: what the page of a team shows of its board.
pub mod Order
pub mod Tone
pub mod Page
mod Bulk
mod Undo
mod Shown
mod Members
mod Events
mod Kept
mod Answers
mod Steps
mod Tests
use task_man.Prelude.{
  ℕ, Bool, true, false, not, ◌&&◌, ◌||◌, ◌==◌, List, [], ◌∷◌, ◌++◌, map, Option, none, some,
  if◌then◌else◌, get_or, length, take, find_if, keep_if, ◌>>=◌,
}
use task_man.Text.{
  Text, lit, text_eq, text_lt, is_empty, is_space, split_where, words, to_upper_case, to_lower_case,
  starts_with,
}
use task_man.Period.{Now, is_overdue}
use task_man.Api.Types.{Status, TaskView, Member, MemberTasks, TeamBoardResponse}
use task_man.Summary.{status_text}
use task_man.Backlog.{is_completed_status}
use task_man.Attention.Selection.{map_get}
use task_man.Team.Order.{by_due, is_open_task}
use task_man.Team.Tone.{tone_index}

-- What `filterId` holds for the unassigned tasks.
abbrev pub unassigned_filter : Text
unassigned_filter = lit "__unassigned"

unfoldable pub initials : Text → Text
initials name = to_upper_case (take 2 (first_letters (words name)))
  where
    first_letters : List Text → Text
    first_letters [] = []
    first_letters ([] ∷ ws) = first_letters ws
    first_letters ((c ∷ w) ∷ ws) = c ∷ first_letters ws

unfoldable pub first_name : Text → Text
first_name name = head_or (split_where is_space name)
  where
    head_or : List Text → Text
    head_or [] = name
    head_or (w ∷ ws) = w

abbrev pub tasks_of : List MemberTasks → List TaskView
tasks_of [] = []
tasks_of (m ∷ ms) = m.tasks ++ tasks_of ms

unfoldable pub all_tasks : Option TeamBoardResponse → List TaskView
all_tasks none = []
all_tasks (some b) = tasks_of b.members ++ b.unassigned

abbrev pub members_of : Option TeamBoardResponse → List MemberTasks
members_of none = []
members_of (some b) = b.members

unfoldable pub member_by_id : Option TeamBoardResponse → Text → Option Member
member_by_id b id = last_of (members_of b) none
  where
    last_of : List MemberTasks → Option Member → Option Member
    last_of [] found = found
    last_of (m ∷ ms) found = last_of ms (if text_eq m.member.id id then some m.member else found)

unfoldable pub team_task : Option TeamBoardResponse → Text → Option TaskView
team_task b id = map_get id (all_tasks b) none

pub record Avatar : Type 0 where
  pub letters : Text
  pub tone : ℕ

unfoldable pub avatar_for : Option TeamBoardResponse → Option Text → Option Avatar
avatar_for b none = none
avatar_for b (some []) = none
avatar_for b (some (c ∷ id)) = do
  m ← member_by_id b (c ∷ id)
  some (record { letters = initials m.name; tone = tone_index m.id })

-- `!t.assigneeId`
abbrev pub is_unassigned : TaskView → Bool
is_unassigned t = is_empty (get_or t.assignee_id [])

abbrev pub is_assigned_to : Text → TaskView → Bool
is_assigned_to id t = text_eq_opt t.assignee_id
  where
    text_eq_opt : Option Text → Bool
    text_eq_opt none = false
    text_eq_opt (some a) = text_eq a id

unfoldable pub is_visible : Option Text → TaskView → Bool
is_visible none t = true
is_visible (some f) t =
    if is_empty f
    then true
    else if text_eq f unassigned_filter
    then is_unassigned t
    else is_assigned_to f t

abbrev pub visible_tasks : Option TeamBoardResponse → Option Text → List TaskView
visible_tasks b f = keep_if (is_visible f) (all_tasks b)

abbrev pub task_overdue : Now → TaskView → Bool
task_overdue now t = is_overdue now (get_or t.due_date []) (status_text t.status)

abbrev pub visible_active : Option TeamBoardResponse → Option Text → List TaskView
visible_active b f = keep_if is_open_task (visible_tasks b f)

abbrev pub visible_completed : Option TeamBoardResponse → Option Text → List TaskView
visible_completed b f = keep_if (λ t. not (is_open_task t)) (visible_tasks b f)

unfoldable pub overdue_rows : Now → Option TeamBoardResponse → Option Text → List TaskView
overdue_rows now b f = by_due (keep_if (task_overdue now) (visible_active b f))

unfoldable pub scheduled_rows : Now → Option TeamBoardResponse → Option Text → List TaskView
scheduled_rows now b f = by_due (keep_if (λ t. not (task_overdue now t)) (visible_active b f))

-- The sections of the members, and whether that of the unassigned tasks is shown.
abbrev pub is_filtered : Option Text → Bool
is_filtered f = not (is_empty (get_or f []))

unfoldable pub member_groups : Option TeamBoardResponse → Option Text → List MemberTasks
member_groups b f =
    if is_filtered f && not (text_eq (get_or f []) unassigned_filter)
    then keep_if (λ (m : MemberTasks). text_eq m.member.id (get_or f [])) (members_of b)
    else if text_eq (get_or f []) unassigned_filter
    then []
    else members_of b

unfoldable pub show_unassigned_group : Option Text → Bool
show_unassigned_group f = not (is_filtered f) || text_eq (get_or f []) unassigned_filter

-- The rows of a section.
unfoldable pub section_rows : List TaskView → List TaskView
section_rows ts = by_due (keep_if (λ t. not (is_completed_status t.status)) ts)

-- Who a typed name is: an exact name, or a prefix of one name only.
abbrev pub only_member : List MemberTasks → Option Text
only_member (m ∷ []) = some m.member.id
only_member _ = none

unfoldable pub resolve_assignee : Option Text → Option TeamBoardResponse → Option Text
resolve_assignee none b = none
resolve_assignee (some []) b = none
resolve_assignee (some (c ∷ s)) none = none
resolve_assignee (some (c ∷ s)) (some b) =
    let n = to_lower_case (c ∷ s) in
    let prefix_hits =
      keep_if (λ (m : MemberTasks). starts_with (to_lower_case m.member.name) n) b.members in
    elim (find_if (λ (m : MemberTasks). text_eq (to_lower_case m.member.name) n) b.members) [
      | some exact ↦ some exact.member.id
      | none ↦ only_member prefix_hits
    ]
