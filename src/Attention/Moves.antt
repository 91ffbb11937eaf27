-- ===== src/Attention/Moves.antt =====
-- What the bulk actions ask of the server, and what a refusal leaves.
use task_man.Prelude.{
  ℕ, ◌≡◌, refl, arith, inl, inr, Bool, true, false, List, [], ◌∷◌, map, none, some, keep_if, length,
  drop-append, drop, All, Bool-cases, ==_iff,
}
use task_man.Text.{Text}
use task_man.Period.{LabelStyle}
use task_man.Api.Types.{TaskView, absent}
use task_man.Attention.Copy.{filled, is_recurring}
use task_man.Attention.Selection.{Request, update_task, Bulk, Attention, send, reload, task_by_id}
use task_man.Attention.Bulk.{
  idle, await, found_in, is_eligible, backlog_slot, backlog_patch, backlog_call, backlog_restore,
  backlog_undo, run_reschedule, run_schedule_for, run_mark_done, run_delete, run_move_to_backlog,
}
use task_man.Attention.Events.{answered, refused}

-- A click while an action waits does nothing, whichever of the five buttons it is on.
pub busy-idle :
    (is_admin : Bool) (s : Attention)
    → s.busy ≡ true
    → (run_reschedule s ≡ some s)
      × (run_schedule_for s ≡ some s)
      × (run_mark_done s ≡ s)
      × (run_delete s ≡ s)
      × (run_move_to_backlog is_admin s ≡ s)
unfolding run_reschedule run_schedule_for run_mark_done run_delete run_move_to_backlog idle
busy-idle is_admin s h = (rw h refl, rw h refl, rw h refl, rw h refl, rw h refl)

-- A refusal leaves the selection, the date, the tasks shown and the toast as they were, shows its
-- message and ends the waiting; the calls sent stay sent.
pub refused-await :
    (e : Text) (b : Bulk) (calls : List Request) (s : Attention)
    → s.busy ≡ false
    → s.running ≡ none
    → refused e (await b calls s) ≡ record (send calls s) { error = some e }
unfolding refused
refused-await e b calls s h k = rw (h, k) refl

-- A call that touches nothing of a task's team.
abbrev pub IsTeamFree : Request → Type 0
IsTeamFree (update_task id p) =
    (p.team_id ≡ absent) × (p.assignee_id ≡ absent) × (p.week_of ≡ absent)
IsTeamFree _ = Unit

abbrev pub undo_calls : Attention → List Request
undo_calls s = elim s.toast [ none ↦ [] | some t ↦ t.undo ]

eligible-user : (t : TaskView) → is_eligible false t ≡ true → filled t.team_id ≡ false
unfolding is_eligible
eligible-user t h = ground (arith, h)

calls-IsTeamFree :
    (ts : List TaskView) → All IsTeamFree (map backlog_call (keep_if (is_eligible false) ts))
unfolding backlog_patch
calls-IsTeamFree [] = tt
calls-IsTeamFree (t ∷ ts) = elim (Bool-cases (is_eligible false t)) [
  | inl e ↦ rw (e, eligible-user t e) ((refl, refl, refl), calls-IsTeamFree ts)
  | inr e ↦ rw e (calls-IsTeamFree ts)
]

undo-IsTeamFree :
    (ts : List TaskView)
    → All IsTeamFree (map backlog_undo (map backlog_slot (keep_if (is_eligible false) ts)))
unfolding backlog_slot backlog_restore
undo-IsTeamFree [] = tt
undo-IsTeamFree (t ∷ ts) = elim (Bool-cases (is_eligible false t)) [
  | inl e ↦ rw (e, eligible-user t e) ((refl, refl, refl), undo-IsTeamFree ts)
  | inr e ↦ rw e (undo-IsTeamFree ts)
]

-- `Move to backlog` by a user who is no admin, and its undo once the server has answered, send
-- calls that touch no team, assignee or week of a task.
pub user-IsTeamFree :
    (locale : LabelStyle → ℕ → Text) (results : List (List TaskView)) (s : Attention)
    → idle s ≡ false
    → All IsTeamFree (drop (length s.sent) (run_move_to_backlog false s).sent)
      × All IsTeamFree (undo_calls (answered locale results (run_move_to_backlog false s)))
unfolding run_move_to_backlog answered reload
user-IsTeamFree locale results s h =
    rw (h, drop-append s.sent (map backlog_call (keep_if (is_eligible false) found)))
      (calls-IsTeamFree found, undo-IsTeamFree found)
  where
    found : List TaskView
    found = found_in (task_by_id s) s.selected

-- A task that may be parked: no series, no subtask, and a team's only for an admin.
abbrev pub IsParked : Bool → TaskView → Type 0
IsParked is_admin t =
    (is_recurring t ≡ false) × (t.progress.total ≡ 0) × (filled t.team_id ≡ true → is_admin ≡ true)

eligible-IsParked :
    (is_admin : Bool) (t : TaskView) → is_eligible is_admin t ≡ true → IsParked is_admin t
unfolding is_eligible
eligible-IsParked is_admin t h = ground (arith, h, ==_iff t.progress.total 0)

parked-eligible :
    (is_admin : Bool) (t : TaskView) → IsParked is_admin t → is_eligible is_admin t ≡ true
unfolding is_eligible
parked-eligible is_admin t h = ground (arith, h, ==_iff t.progress.total 0)

-- A task is eligible for the backlog exactly when it has no series and no subtask, and no team unless the user is an admin.
pub is_eligible_iff :
    (is_admin : Bool) (t : TaskView)
    → (is_eligible is_admin t ≡ true → IsParked is_admin t)
      × (IsParked is_admin t → is_eligible is_admin t ≡ true)
is_eligible_iff is_admin t = (eligible-IsParked is_admin t, parked-eligible is_admin t)
