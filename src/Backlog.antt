-- ===== src/Backlog.antt =====
-- ui/src/views/BacklogView.tsx: the parked tasks, and handing them to a team.
mod Groups
mod Restored
mod Events
mod Kept
mod Tests
use task_man.Prelude.{
  ℕ, Bool, true, false, not, ◌&&◌, ◌||◌, List, [], ◌∷◌, ◌++◌, map, Option, none, some,
  if◌then◌else◌, get_or, length, any_of, keep_if,
}
use task_man.Prelude.Int.{pos}
use task_man.Text.{Text, lit, text_eq, is_empty}
use task_man.Api.Types.{
  Horizon, Status, Priority, low, medium, high, TaskView, Team, absent, null, put, UpdateTaskInput,
}
use task_man.Api.Requests.{Request, backlog_list, update_task, delete_task, restore_tasks}
use task_man.Api.Patches.{no_change, put_or_absent}
use task_man.Picks.{has, is_none_left, toggled}
use task_man.Panel.{
  Panel, empty_panel, post, refresh, refresh_all, show_toast, complain, choose, hide_toast,
  click_undo_on,
}
use task_man.Attention.Copy.{plural}
use task_man.Attention.Events.{concat_deleted}

pub data PrioKey : Type 0 where
  high_key medium_key low_key none_key : PrioKey

unfoldable pub prio_key : Priority → PrioKey
prio_key high = high_key
prio_key medium = medium_key
prio_key low = low_key
prio_key _ = none_key

abbrev pub same_key : PrioKey → PrioKey → Bool
same_key high_key high_key = true
same_key medium_key medium_key = true
same_key low_key low_key = true
same_key none_key none_key = true
same_key _ _ = false

abbrev pub priority_groups : List PrioKey
priority_groups = high_key ∷ medium_key ∷ low_key ∷ none_key ∷ []

unfoldable pub is_completed_status : Status → Bool
is_completed_status Status.done = true
is_completed_status Status.cancelled = true
is_completed_status _ = false

-- The click on a row's status control.
unfoldable pub next_status : Status → Status
next_status Status.todo = Status.in_progress
next_status Status.in_progress = Status.done
next_status Status.done = Status.cancelled
next_status Status.cancelled = Status.todo

-- What the assign popover resolves to.
pub record AssignInput : Type 0 where
  pub team_id : Text
  pub assignee_id : Option Text
  pub due_date : Option Text

abbrev pub or_undefined : Text → Option Text
or_undefined s = if is_empty s then none else some s

-- The popover's Assign button: it is disabled as long as no team is picked.
unfoldable pub assign_clicked : Text → Text → Text → Option AssignInput
assign_clicked team assignee due =
    if is_empty team
    then none
    else some (record {
      team_id = team;
      assignee_id = or_undefined assignee;
      due_date = or_undefined due;
    })

-- A bulk action that is awaited, with what its closure holds: the tags of the filter, and the number
-- of the tasks, or the tasks and the name of the team.
pub data Waiting : Type 0 where
  deleting_all : List Text → ℕ → Waiting
  assigning : List Text → List Text → Text → Waiting

-- `running` is the bulk action that is awaited, `target` the row or `"bulk"` whose popover is open.
pub record Backlog : Type 0 where
  pub panel : Panel
  pub tasks : Option (List TaskView)
  pub teams : List Team
  pub tags : List Text
  pub opened : Option Text
  pub target : Option Text
  pub busy : Bool
  pub running : Option Waiting

abbrev pub active_tasks : Backlog → List TaskView
active_tasks s = keep_if (λ t. not (is_completed_status t.status)) (get_or s.tasks [])

abbrev pub completed_tasks : Backlog → List TaskView
completed_tasks s = keep_if (λ t. is_completed_status t.status) (get_or s.tasks [])

pub record PrioGroup : Type 0 where
  pub key : PrioKey
  pub tasks : List TaskView

abbrev pub group_of : List TaskView → PrioKey → PrioGroup
group_of ts k = record { key = k; tasks = keep_if (λ t. same_key (prio_key t.priority) k) ts }

-- `tasks.length > 0`.
abbrev pub has_any : List TaskView → Bool
has_any [] = false
has_any (t ∷ ts) = true

abbrev pub is_shown : PrioGroup → Bool
is_shown g = has_any g.tasks

unfoldable pub groups : List TaskView → List PrioGroup
groups ts = keep_if is_shown (map (group_of ts) priority_groups)

abbrev pub unassign_patch : UpdateTaskInput
unassign_patch = record no_change {
  team_id = null;
  assignee_id = null;
  horizon = put Horizon.backlog;
  period = put [];
  due_date = put [];
}

abbrev pub assign_patch : Text → AssignInput → UpdateTaskInput
assign_patch now input = record no_change {
  team_id = put input.team_id;
  horizon = put Horizon.daily;
  period = put now;
  assignee_id = put_or_absent input.assignee_id;
  due_date = put_or_absent input.due_date;
}

-- `reload(); notifyTasksChanged();`, in a closure that was made under these tags.
abbrev pub changed_panel : List Text → Backlog → Panel
changed_panel tags s = refresh_all (backlog_list tags) s.panel

unfoldable pub backlog_loaded : List TaskView → Backlog → Backlog
backlog_loaded ts s = record s {
  tasks = some ts;
  panel = choose (keep_if (λ id. any_of (λ t. text_eq t.id id) ts) s.panel.selected) s.panel;
}

unfoldable pub toggle_task : Text → Backlog → Backlog
toggle_task id s =
    let shown = if is_none_left s.panel.selected then hide_toast s.panel else s.panel in
    record s { panel = choose (toggled id s.panel.selected) shown }

-- The Assign buttons open a popover, and close it when it is the one that is open.
unfoldable pub target_clicked : Text → Backlog → Backlog
target_clicked who s = record s {
  target = if get_or (map_same s.target) false then none else some who;
}
  where
    map_same : Option Text → Option Bool
    map_same none = none
    map_same (some w) = some (text_eq w who)

unfoldable pub delete_one : TaskView → Backlog → Backlog
delete_one t s = record s { panel = post (delete_task t.id ∷ []) s.panel }

-- `setBusy(true); setSelected(new Set());` and the calls that are awaited.
abbrev pub await_bulk : Waiting → List Request → Backlog → Backlog
await_bulk w calls s = record s {
  busy = true;
  running = some w;
  panel = post calls (choose [] s.panel);
}

unfoldable pub delete_selected : Backlog → Backlog
delete_selected s =
    if s.busy
    then s
    else if is_none_left s.panel.selected
    then s
    else await_bulk (deleting_all s.tags (length s.panel.selected))
        (map delete_task s.panel.selected) s

-- `teamNames.get(...) ?? "team"`: a later team of the same identifier wins.
abbrev pub team_name : List Team → Text → Text → Text
team_name [] id name = name
team_name (t ∷ ts) id name = team_name ts id (if text_eq t.id id then t.name else name)

-- `now` is `today()`.
unfoldable pub assign_tasks : Text → List Text → AssignInput → Backlog → Backlog
assign_tasks now ids input s =
    if s.busy || is_none_left ids
    then s
    else await_bulk (assigning s.tags ids (team_name s.teams input.team_id (lit "team")))
        (map (λ id. update_task id (assign_patch now input)) ids) (record s { target = none })

abbrev pub message_after : Waiting → Text
message_after (deleting_all tags n) = plural (pos n) (lit "task") ++ lit " deleted"
message_after (assigning tags ids team) =
    lit "Assigned " ++ (plural (pos (length ids)) (lit "task") ++ (lit " to " ++ team))

abbrev pub tags_of_call : Waiting → List Text
tags_of_call (deleting_all tags n) = tags
tags_of_call (assigning tags ids team) = tags

-- `results` are the tasks that each call to delete has deleted.
abbrev pub undo_after : Waiting → List (List TaskView) → List Request
undo_after (assigning tags ids team) results = map (λ id. update_task id unassign_patch) ids
undo_after _ results = restore_tasks (concat_deleted results) ∷ []

abbrev pub finish : Waiting → List (List TaskView) → Backlog → Backlog
finish w results s = record s {
  busy = false;
  running = none;
  panel =
      show_toast (some (message_after w)) (undo_after w results) (changed_panel (tags_of_call w) s);
}

unfoldable pub bulk_answered : List (List TaskView) → Backlog → Backlog
bulk_answered results s = elim s.running [ none ↦ s | some w ↦ finish w results s ]

unfoldable pub bulk_refused : Text → Backlog → Backlog
bulk_refused e s = elim s.running [
  | none ↦ s
  | some w ↦ record s { busy = false; running = none; panel = complain e s.panel }
]

-- The answer to the deletion of one row, of this title.
unfoldable pub one_deleted : List Text → Text → List TaskView → Backlog → Backlog
one_deleted tags title deleted s = record s {
  panel =
      show_toast (some (lit "\"" ++ (title ++ lit "\" deleted"))) (restore_tasks deleted ∷ [])
        (changed_panel tags s);
}
