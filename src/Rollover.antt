-- ===== src/Rollover.antt =====
-- ui/src/views/TeamRollover.tsx: the open tasks of a team's past weeks, and moving them on. The team
-- is a parameter: the view is mounted for one.
mod Restored
mod Groups
mod Kept
mod Tests
use task_man.Prelude.{
  ℕ, ◌-◌, Bool, true, false, not, ◌&&◌, ◌||◌, List, [], ◌∷◌, ◌++◌, map, Option, none, some,
  if◌then◌else◌, get_or, or_else, length, any_of, all_of, keep_if, ◌==◌,
}
use task_man.Prelude.Int.{pos}
use task_man.Text.{Text, lit, text_eq}
use task_man.Api.Types.{Status, TaskView, RolloverResponse, put}
use task_man.Api.Requests.{Request, team_rollover, update_task}
use task_man.Api.Patches.{no_change}
use task_man.Picks.{has, is_none_left, toggled, section_toggled, add_all}
use task_man.Panel.{
  Panel, empty_panel, post, refresh, refresh_all, show_toast, complain, choose, hide_toast,
  click_undo_on,
}
use task_man.Attention.Copy.{plural, is_recurring}
use task_man.Attention.Selection.{map_get}
use task_man.Attention.Bulk.{found_in}

pub record WeekSlot : Type 0 where
  pub id : Text
  pub week_of : Text

pub record StatusWeekSlot : Type 0 where
  pub id : Text
  pub status : Status
  pub week_of : Text

-- A bulk action that waits for its answer, with what its undo needs.
pub data Waiting : Type 0 where
  moving : ℕ → List WeekSlot → Waiting
  setting : Text → List StatusWeekSlot → Waiting

pub record Rollover : Type 0 where
  pub panel : Panel
  pub tasks : Option (List TaskView)
  pub server_week : Option Text
  pub busy : Bool
  pub running : Option Waiting

abbrev pub shown_tasks : Rollover → List TaskView
shown_tasks s = get_or s.tasks []

abbrev pub shown_ids : Rollover → List Text
shown_ids s = map (λ t. t.id) (shown_tasks s)

unfoldable pub rollover_task : Rollover → Text → Option TaskView
rollover_task s id = map_get id (shown_tasks s) none

-- A week's group, and the scan that makes the groups.
pub record WeekGroup : Type 0 where
  pub week : Text
  pub rows : List TaskView

abbrev pub week_or_empty : TaskView → Text
week_or_empty t = get_or t.week_of []

abbrev pub add_row : TaskView → List WeekGroup → List WeekGroup
add_row t [] = record { week = week_or_empty t; rows = t ∷ [] } ∷ []
add_row t (g ∷ []) =
    if text_eq g.week (week_or_empty t)
    then record g { rows = g.rows ++ t ∷ [] } ∷ []
    else g ∷ record { week = week_or_empty t; rows = t ∷ [] } ∷ []
add_row t (g ∷ h ∷ gs) = g ∷ add_row t (h ∷ gs)

unfoldable pub groups_from : List TaskView → List WeekGroup → List WeekGroup
groups_from [] out = out
groups_from (t ∷ ts) out = groups_from ts (add_row t out)

unfoldable pub all_chosen : Rollover → Bool
all_chosen s =
    not (is_none_left (shown_ids s)) && all_of (λ id. has id s.panel.selected) (shown_ids s)

unfoldable pub toggle_row : Text → Rollover → Rollover
toggle_row id s =
    let shown = if is_none_left s.panel.selected then hide_toast s.panel else s.panel in
    record s { panel = choose (toggled id s.panel.selected) shown }

abbrev pub toggle_group : List Text → Rollover → Rollover
toggle_group ids s = record s { panel = choose (section_toggled ids s.panel.selected) s.panel }

unfoldable pub toggle_all : Rollover → Rollover
toggle_all s = record s {
  panel = choose (if all_chosen s then [] else add_all (shown_ids s) []) s.panel;
}

-- The answer to `reload`.
unfoldable pub rollover_loaded : RolloverResponse → Rollover → Rollover
rollover_loaded d s = record s {
  tasks = some d.tasks;
  server_week = some d.week;
  panel = choose (keep_if (λ id. any_of (λ t. text_eq t.id id) d.tasks) s.panel.selected) s.panel;
}

-- `setBusy(true); setSelected(new Set());` and the calls that are awaited.
abbrev pub start_bulk : Waiting → List Request → Rollover → Rollover
start_bulk w calls s = record s {
  busy = true;
  running = some w;
  panel = post calls (choose [] s.panel);
}

abbrev pub week_slot : TaskView → WeekSlot
week_slot t = record { id = t.id; week_of = get_or t.week_of [] }

abbrev pub week_call : Text → WeekSlot → Request
week_call target r = update_task r.id (record no_change { week_of = put target })

-- `if (busy) return;` and `if (!ids.length) return;`
unfoldable pub blocked : Rollover → Bool
blocked s = s.busy || is_none_left s.panel.selected

abbrev pub chosen_tasks : Rollover → List TaskView
chosen_tasks s = found_in (rollover_task s) s.panel.selected

abbrev pub move_targets : Rollover → List TaskView
move_targets s = keep_if (λ t. not (is_recurring t)) (chosen_tasks s)

-- `current` is what `currentWeek()` gives.
unfoldable pub bulk_move : Text → Rollover → Rollover
bulk_move current s =
    let remembered = map week_slot (move_targets s) in
    if blocked s
    then s
    else start_bulk (moving (length (chosen_tasks s) - length (move_targets s)) remembered)
        (map (week_call (get_or s.server_week current)) remembered) s

abbrev pub status_week_slot : TaskView → StatusWeekSlot
status_week_slot t = record { id = t.id; status = t.status; week_of = get_or t.week_of [] }

abbrev pub status_call : Status → StatusWeekSlot → Request
status_call status r = update_task r.id (record no_change { status = put status })

unfoldable pub bulk_status : Status → Text → Rollover → Rollover
bulk_status status verb s =
    let remembered = map status_week_slot (chosen_tasks s) in
    if blocked s
    then s
    else start_bulk (setting verb remembered) (map (status_call status) remembered) s

-- The undo of each.
abbrev pub week_undo : WeekSlot → Request
week_undo r = update_task r.id (record no_change { week_of = put r.week_of })

abbrev pub status_week_undo : StatusWeekSlot → Request
status_week_undo r =
    update_task r.id (record no_change { status = put r.status; week_of = put r.week_of })

abbrev pub moved_text : ℕ → ℕ → Text
moved_text n skipped =
    plural (pos n) (lit "task")
    ++ (lit " moved to this week"
        ++ (if skipped == 0
            then []
            else lit " · " ++ (plural (pos skipped) (lit "recurring task") ++ lit " skipped")))

abbrev pub message_after : Waiting → Text
message_after (moving skipped slots) = moved_text (length slots) skipped
message_after (setting verb slots) = plural (pos (length slots)) (lit "task") ++ (lit " " ++ verb)

abbrev pub undo_after : Waiting → List Request
undo_after (moving skipped slots) = map week_undo slots
undo_after (setting verb slots) = map status_week_undo slots

module _ (team : Text) where
  abbrev pub first : Rollover
  first = record {
    panel = post (team_rollover team ∷ []) empty_panel;
    tasks = none;
    server_week = none;
    busy = false;
    running = none;
  }

  unfoldable pub bulk_answered : Rollover → Rollover
  bulk_answered s = elim s.running [
    | none ↦ s
    | some w ↦ record s {
      busy = false;
      running = none;
      panel =
          show_toast (some (message_after w)) (undo_after w)
            (refresh_all (team_rollover team) s.panel);
    }
  ]

  -- The answer to a row's own status call, and to the calls of an undo.
  unfoldable pub row_answered : Rollover → Rollover
  row_answered s = record s { panel = refresh_all (team_rollover team) s.panel }

unfoldable pub bulk_refused : Text → Rollover → Rollover
bulk_refused e s = elim s.running [
  | none ↦ s
  | some w ↦ record s { busy = false; running = none; panel = complain e s.panel }
]

unfoldable pub set_row_status : Text → Status → Rollover → Rollover
set_row_status id status s = record s {
  panel = post (update_task id (record no_change { status = put status }) ∷ []) s.panel;
}

pub data Event : Type 0 where
  click_row : Text → Event
  click_group : List Text → Event
  click_all clear_click : Event
  pick_status : Text → Status → Event
  click_move : Text → Event
  click_done click_cancel undo_click toast_gone : Event
  load_answer : RolloverResponse → Event
  refusal bulk_refusal : Text → Event
  bulk_answer row_answer : Event

module _ (team : Text) where
  abbrev pub step : Event → Rollover → Rollover
  step (click_row id) s = toggle_row id s
  step (click_group ids) s = toggle_group ids s
  step click_all s = toggle_all s
  step clear_click s = record s { panel = choose [] s.panel }
  step (pick_status id status) s = set_row_status id status s
  step (click_move current) s = bulk_move current s
  step click_done s = bulk_status Status.done (lit "marked done") s
  step click_cancel s = bulk_status Status.cancelled (lit "cancelled") s
  step undo_click s = record s { panel = click_undo_on s.panel }
  step toast_gone s = record s { panel = hide_toast s.panel }
  step (load_answer d) s = rollover_loaded d s
  step (refusal e) s = record s { panel = complain e s.panel }
  step (bulk_refusal e) s = bulk_refused e s
  step bulk_answer s = bulk_answered team s
  step row_answer s = row_answered team s
