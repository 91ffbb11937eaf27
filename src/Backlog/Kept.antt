-- ===== src/Backlog/Kept.antt =====
-- What holds of the backlog view at every moment.
use task_man.Prelude.{
  ◌≡◌, refl, Bool, true, false, ◌||◌, List, [], ◌∷◌, map, none, some, is_some, if◌then◌else◌,
  get_or, All,
}
use task_man.Text.{Text}
use task_man.Api.Types.{TaskView}
use task_man.Api.Requests.{Request}
use task_man.Picks.{has, is_none_left}
use task_man.Picks.Chosen.{toggled-All}
use task_man.Panel.{complain}
use task_man.Panel.Kept.{loaded-All, undo_click-selected}
use task_man.Backlog.{
  Backlog, Waiting, AssignInput, backlog_loaded, toggle_task, target_clicked, delete_one,
  delete_selected, await_bulk, assign_tasks, finish, bulk_answered, bulk_refused, one_deleted,
}
use task_man.Backlog.Events.{
  Event, fresh, step, click_row, open_task, click_clear, close_task, task_changed, filter_by,
  pick_status, click_assign, close_popover, assign_row, assign_selected, click_delete,
  click_delete_selected, undo_click, toast_gone, load_answer, teams_answer, delete_answer,
  call_answer, refusal, bulk_refusal, bulk_answer,
}

abbrev pub ids_shown : Backlog → List Text
ids_shown s = map (λ t. t.id) (get_or s.tasks [])

-- The rows on the screen are those of the tasks loaded.
abbrev pub IsOffered : Event → Backlog → Type 0
IsOffered (click_row id) s = has id (ids_shown s) ≡ true
IsOffered _ s = Unit

pub data Reach : Backlog → Type 0 where
  start : (tags : List Text) → Reach (fresh tags)
  next : {s : Backlog} → Reach s → (e : Event) → IsOffered e s → Reach (step e s)

-- Every selected identifier is that of a task loaded, and the view is busy when an action waits.
pub record IsTidy (s : Backlog) : Type 0 where
  pub shown : All (λ id. has id (ids_shown s) ≡ true) s.panel.selected
  pub waits : s.busy ≡ is_some s.running

abbrev IsCalm : Backlog → Type 0
IsCalm s = IsTidy s × (s.busy ≡ false)

unless-IsTidy : (b : Bool) (s t : Backlog) → IsTidy s → IsTidy t → IsTidy (if b then s else t)
unless-IsTidy true s t h k = h
unless-IsTidy false s t h k = k

await_bulk-IsTidy :
    (w : Waiting) (calls : List Request) (s : Backlog) → IsTidy (await_bulk w calls s)
await_bulk-IsTidy w calls s = record { shown = tt; waits = refl }

answered-IsCalm :
    (results : List (List TaskView)) (s : Backlog) → IsTidy s → IsCalm (bulk_answered results s)
unfolding bulk_answered
answered-IsCalm results s h =
    elim s.running
        as (λ o. s.busy ≡ is_some o → IsCalm (elim o [ none ↦ s | some w ↦ finish w results s ])) [
          | none ↦ λ q. (h, q)
          | some w ↦ λ q. (record { shown = h.shown; waits = refl }, refl)
        ]
      h.waits

refused-IsCalm : (e : Text) (s : Backlog) → IsTidy s → IsCalm (bulk_refused e s)
unfolding bulk_refused
refused-IsCalm e s h =
    elim s.running
        as (λ o.
          s.busy ≡ is_some o
          → IsCalm (elim o [
            | none ↦ s
            | some w ↦ record s { busy = false; running = none; panel = complain e s.panel }
          ])) [
            | none ↦ λ q. (h, q)
            | some w ↦ λ q. (record { shown = h.shown; waits = refl }, refl)
          ]
      h.waits

assign_tasks-IsTidy :
    (now : Text) (ids : List Text) (input : AssignInput) (s : Backlog)
    → IsTidy s
    → IsTidy (assign_tasks now ids input s)
unfolding assign_tasks
assign_tasks-IsTidy now ids input s h =
    unless-IsTidy (s.busy || is_none_left ids) s _ h
      (await_bulk-IsTidy _ _ (record s { target = none }))

delete_selected-IsTidy : (s : Backlog) → IsTidy s → IsTidy (delete_selected s)
unfolding delete_selected
delete_selected-IsTidy s h =
    unless-IsTidy s.busy s _ h
      (unless-IsTidy (is_none_left s.panel.selected) s _ h (await_bulk-IsTidy _ _ s))

step-IsTidy : (e : Event) (s : Backlog) → IsOffered e s → IsTidy s → IsTidy (step e s)
unfolding toggle_task backlog_loaded target_clicked delete_one one_deleted
step-IsTidy (click_row id) s o h = record {
  shown = toggled-All (λ i. has i (ids_shown s) ≡ true) id s.panel.selected o h.shown;
  waits = h.waits;
}
step-IsTidy click_clear s o h = record { shown = tt; waits = h.waits }
step-IsTidy (assign_row id now input) s o h = assign_tasks-IsTidy now (id ∷ []) input s h
step-IsTidy (assign_selected now input) s o h = assign_tasks-IsTidy now s.panel.selected input s h
step-IsTidy click_delete_selected s o h = delete_selected-IsTidy s h
step-IsTidy undo_click s o h = record {
  shown = rw (undo_click-selected s.panel) h.shown;
  waits = h.waits;
}
step-IsTidy (load_answer ts) s o h = record {
  shown = loaded-All ts s.panel.selected;
  waits = h.waits;
}
step-IsTidy (bulk_refusal e) s o h = (refused-IsCalm e s h).0
step-IsTidy (bulk_answer results) s o h = (answered-IsCalm results s h).0
step-IsTidy (open_task id) s o h = record { shown = h.shown; waits = h.waits }
step-IsTidy close_task s o h = record { shown = h.shown; waits = h.waits }
step-IsTidy (task_changed tags) s o h = record { shown = h.shown; waits = h.waits }
step-IsTidy (filter_by tags) s o h = record { shown = h.shown; waits = h.waits }
step-IsTidy (pick_status id status) s o h = record { shown = h.shown; waits = h.waits }
step-IsTidy (click_assign who) s o h = record { shown = h.shown; waits = h.waits }
step-IsTidy close_popover s o h = record { shown = h.shown; waits = h.waits }
step-IsTidy (click_delete t) s o h = record { shown = h.shown; waits = h.waits }
step-IsTidy toast_gone s o h = record { shown = h.shown; waits = h.waits }
step-IsTidy (teams_answer ts) s o h = record { shown = h.shown; waits = h.waits }
step-IsTidy (delete_answer tags title deleted) s o h = record { shown = h.shown; waits = h.waits }
step-IsTidy (call_answer tags) s o h = record { shown = h.shown; waits = h.waits }
step-IsTidy (refusal e) s o h = record { shown = h.shown; waits = h.waits }

-- In every state that the backlog view reaches, each selected identifier is that of a task loaded,
-- and the view is busy exactly when a bulk action waits for its answer.
pub Reach-IsTidy : {s : Backlog} → Reach s → IsTidy s
Reach-IsTidy (start tags) = record { shown = tt; waits = refl }
Reach-IsTidy (next {s} r e o) = step-IsTidy e s o (Reach-IsTidy r)

-- In every state that the backlog view reaches, the answers to a bulk action and a refusal both end
-- the waiting.
pub Reach-calm :
    (results : List (List TaskView)) (e : Text) {s : Backlog}
    → Reach s
    → ((bulk_answered results s).busy ≡ false) × ((bulk_refused e s).busy ≡ false)
Reach-calm results e {s} r =
    ((answered-IsCalm results s (Reach-IsTidy r)).1, (refused-IsCalm e s (Reach-IsTidy r)).1)
