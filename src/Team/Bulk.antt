-- ===== src/Team/Bulk.antt =====
-- ui/src/views/TeamPage.tsx: the actions on the selected tasks.
use task_man.Prelude.{
  ℕ, zero, suc, List, [], ◌∷◌, ◌++◌, map, Option, none, some, if◌then◌else◌, get_or, length,
}
use task_man.Prelude.Int.{pos}
use task_man.Text.{Text, lit}
use task_man.Api.Types.{Status, TaskView, put}
use task_man.Api.Requests.{Request, update_task, delete_task, restore_tasks}
use task_man.Api.Patches.{no_change, put_or_null}
use task_man.Picks.{is_none_left}
use task_man.Panel.{Panel, post, choose, show_toast}
use task_man.Attention.Copy.{plural}
use task_man.Attention.Bulk.{found_in}
use task_man.Attention.Events.{concat_deleted}
use task_man.Team.{member_by_id, team_task, first_name}
use task_man.Team.Page.{
  BoardRef, here, TeamPage, Waiting, patching, deleting, reload_all, page_failed,
}

pub record AssigneeSlot : Type 0 where
  pub id : Text
  pub assignee_id : Option Text

pub record DueSlot : Type 0 where
  pub id : Text
  pub due_date : Text

pub record DoneSlot : Type 0 where
  pub id : Text
  pub status : Status
  pub week_of : Text

abbrev pub task_of : TeamPage → Text → Option TaskView
task_of s id = team_task s.board id

abbrev pub assignee_in : Option TaskView → Option Text
assignee_in none = none
assignee_in (some t) = t.assignee_id

abbrev pub due_in : Option TaskView → Text
due_in none = []
due_in (some t) = get_or t.due_date []

abbrev pub assignee_slot : TeamPage → Text → AssigneeSlot
assignee_slot s id = record { id = id; assignee_id = assignee_in (task_of s id) }

abbrev pub due_slot : TeamPage → Text → DueSlot
due_slot s id = record { id = id; due_date = due_in (task_of s id) }

abbrev pub done_slot : TaskView → DoneSlot
done_slot t = record { id = t.id; status = t.status; week_of = get_or t.week_of [] }

-- `setSelected(new Set());` and the calls that are awaited.
abbrev pub start_action : Waiting → List Request → TeamPage → TeamPage
start_action w calls s = record s {
  panel = post calls (choose [] s.panel);
  running = w ∷ s.running;
}

abbrev pub count_text : List Text → Text → Text
count_text ids what = plural (pos (length ids)) (lit "task") ++ what

abbrev pub assign_call : Option Text → Text → Request
assign_call who id = update_task id (record no_change { assignee_id = put_or_null who })

abbrev pub assign_undo : AssigneeSlot → Request
assign_undo r = assign_call r.assignee_id r.id

abbrev pub member_word : TeamPage → Text → Text
member_word s id = elim (member_by_id s.board id) [
  | none ↦ lit "member"
  | some m ↦ first_name m.name
]

-- Both set the assignee; `none` unassigns.
unfoldable pub bulk_assign : Option Text → Text → TeamPage → TeamPage
bulk_assign who message s =
    let ids = s.panel.selected in
    if is_none_left ids
    then s
    else start_action
        (patching (here s) (count_text ids message) (map assign_undo (map (assignee_slot s) ids)))
        (map (assign_call who) ids) s

unfoldable pub bulk_reassign : Text → TeamPage → TeamPage
bulk_reassign member s = bulk_assign (some member) (lit " reassigned to " ++ member_word s member) s

unfoldable pub bulk_unassign : TeamPage → TeamPage
bulk_unassign s = bulk_assign none (lit " unassigned") s

abbrev pub due_call : Text → Text → Request
due_call due id = update_task id (record no_change { due_date = put due })

abbrev pub due_undo : DueSlot → Request
due_undo r = due_call r.due_date r.id

unfoldable pub bulk_set_due : Text → TeamPage → TeamPage
bulk_set_due due s =
    let ids = s.panel.selected in
    if is_none_left ids
    then s
    else start_action
        (patching (here s) (count_text ids (lit " rescheduled"))
          (map due_undo (map (due_slot s) ids)))
        (map (due_call due) ids) s

abbrev pub done_call : DoneSlot → Request
done_call r = update_task r.id (record no_change { status = put Status.done })

abbrev pub done_undo : DoneSlot → Request
done_undo r = update_task r.id (record no_change { status = put r.status; week_of = put r.week_of })

abbrev pub selected_tasks : TeamPage → List TaskView
selected_tasks s = found_in (task_of s) s.panel.selected

unfoldable pub bulk_mark_done : TeamPage → TeamPage
bulk_mark_done s =
    let remembered = map done_slot (selected_tasks s) in
    if is_none_left s.panel.selected
    then s
    else start_action
        (patching (here s) (plural (pos (length remembered)) (lit "task") ++ lit " marked done")
          (map done_undo remembered))
        (map done_call remembered) s

unfoldable pub bulk_delete : TeamPage → TeamPage
bulk_delete s =
    let ids = s.panel.selected in
    if is_none_left ids
    then s
    else start_action (deleting (here s) (length ids)) (map delete_task ids) s

-- The answer to an action, and to the one of this place among those that are awaited.
abbrev pub toast_of : Waiting → List (List TaskView) → Panel → Panel
toast_of (patching b message undo) results p = show_toast (some message) undo p
toast_of (deleting b n) results p =
    show_toast (some (plural (pos n) (lit "task") ++ lit " deleted"))
      (restore_tasks (concat_deleted results) ∷ []) p

abbrev pub board_ref : Waiting → BoardRef
board_ref (patching b message undo) = b
board_ref (deleting b n) = b

abbrev pub action_done : Waiting → List (List TaskView) → TeamPage → TeamPage
action_done w results s =
    let t = reload_all (board_ref w) s in record t { panel = toast_of w results t.panel }

pub record Picked : Type 0 where
  pub chosen : Option Waiting
  pub others : List Waiting

abbrev pub take_at : ℕ → List Waiting → Picked
take_at n [] = record { chosen = none; others = [] }
take_at zero (w ∷ ws) = record { chosen = some w; others = ws }
take_at (suc n) (w ∷ ws) = let rest = take_at n ws in record rest { others = w ∷ rest.others }

unfoldable pub action_answered : ℕ → List (List TaskView) → TeamPage → TeamPage
action_answered n results s =
    let picked = take_at n s.running in
    elim picked.chosen [
      | none ↦ s
      | some w ↦ action_done w results (record s { running = picked.others })
    ]

unfoldable pub action_refused : ℕ → Text → TeamPage → TeamPage
action_refused n e s = page_failed e (record s { running = (take_at n s.running).others })
