-- ===== src/Rollover/Kept.antt =====
-- What holds of the rollover at every moment.
use task_man.Prelude.{
  ◌≡◌, refl, inl, inr, Bool, true, false, List, [], none, some, is_some, if◌then◌else◌, All,
  Bool-cases,
}
use task_man.Text.{Text}
use task_man.Api.Types.{Status}
use task_man.Api.Requests.{Request, team_rollover}
use task_man.Picks.{has}
use task_man.Picks.Chosen.{add_all-All, toggled-All, section_toggled-All, ids-All}
use task_man.Panel.{complain, refresh_all, show_toast}
use task_man.Panel.Kept.{loaded-All, undo_click-selected}
use task_man.Rollover.{
  Rollover, Waiting, shown_ids, first, toggle_row, toggle_group, toggle_all, all_chosen,
  rollover_loaded, start_bulk, blocked, bulk_move, bulk_status, bulk_answered, bulk_refused,
  row_answered, set_row_status, Event, click_row, click_group, click_all, clear_click, pick_status,
  click_move, click_done, click_cancel, undo_click, toast_gone, load_answer, refusal, bulk_refusal,
  bulk_answer, row_answer, step, message_after, undo_after,
}

-- The rows and the groups that are on the screen are those of the tasks shown.
abbrev pub IsOffered : Event → Rollover → Type 0
IsOffered (click_row id) s = has id (shown_ids s) ≡ true
IsOffered (click_group ids) s = All (λ id. has id (shown_ids s) ≡ true) ids
IsOffered _ s = Unit

module _ (team : Text) where
  pub data Reach : Rollover → Type 0 where
    start : Reach (first team)
    next : {s : Rollover} → Reach s → (e : Event) → IsOffered e s → Reach (step team e s)

-- Every selected identifier is that of a task shown, and the view is busy when an action waits.
pub record IsReady (s : Rollover) : Type 0 where
  pub shown : All (λ id. has id (shown_ids s) ≡ true) s.panel.selected
  pub waits : s.busy ≡ is_some s.running

unless-IsReady : (b : Bool) (s t : Rollover) → IsReady s → IsReady t → IsReady (if b then s else t)
unless-IsReady true s t h k = h
unless-IsReady false s t h k = k

toggle_row-IsReady :
    (id : Text) (s : Rollover) → has id (shown_ids s) ≡ true → IsReady s → IsReady (toggle_row id s)
unfolding toggle_row
toggle_row-IsReady id s q h = record {
  shown = toggled-All (λ i. has i (shown_ids s) ≡ true) id s.panel.selected q h.shown;
  waits = h.waits;
}

toggle_group-IsReady :
    (ids : List Text) (s : Rollover)
    → All (λ id. has id (shown_ids s) ≡ true) ids
    → IsReady s
    → IsReady (toggle_group ids s)
toggle_group-IsReady ids s q h = record {
  shown = section_toggled-All (λ i. has i (shown_ids s) ≡ true) ids s.panel.selected q h.shown;
  waits = h.waits;
}

toggle_all-IsReady : (s : Rollover) → IsReady s → IsReady (toggle_all s)
unfolding toggle_all
toggle_all-IsReady s h = record {
  shown = elim (Bool-cases (all_chosen s)) [
    | inl e ↦ rw e tt
    | inr e ↦
        rw e (
          add_all-All (λ i. has i (shown_ids s) ≡ true) (shown_ids s) [] (ids-All (shown_ids s)) tt)
  ];
  waits = h.waits;
}

start_bulk-IsReady :
    (w : Waiting) (calls : List Request) (s : Rollover) → IsReady (start_bulk w calls s)
start_bulk-IsReady w calls s = record { shown = tt; waits = refl }

bulk_move-IsReady : (current : Text) (s : Rollover) → IsReady s → IsReady (bulk_move current s)
unfolding bulk_move
bulk_move-IsReady current s h = unless-IsReady (blocked s) s _ h (start_bulk-IsReady _ _ s)

bulk_status-IsReady :
    (status : Status) (verb : Text) (s : Rollover) → IsReady s → IsReady (bulk_status status verb s)
unfolding bulk_status
bulk_status-IsReady status verb s h = unless-IsReady (blocked s) s _ h (start_bulk-IsReady _ _ s)

abbrev IsSettled : Rollover → Type 0
IsSettled s = IsReady s × (s.busy ≡ false)

answered-IsSettled : (team : Text) (s : Rollover) → IsReady s → IsSettled (bulk_answered team s)
unfolding bulk_answered
answered-IsSettled team s h =
    elim s.running
        as (λ o.
          s.busy ≡ is_some o
          → IsSettled (elim o [
            | none ↦ s
            | some w ↦ record s {
              busy = false;
              running = none;
              panel =
                  show_toast (some (message_after w)) (undo_after w)
                    (refresh_all (team_rollover team) s.panel);
            }
          ])) [
            | none ↦ λ q. (h, q)
            | some w ↦ λ q. (record { shown = h.shown; waits = refl }, refl)
          ]
      h.waits

refused-IsSettled : (e : Text) (s : Rollover) → IsReady s → IsSettled (bulk_refused e s)
unfolding bulk_refused
refused-IsSettled e s h =
    elim s.running
        as (λ o.
          s.busy ≡ is_some o
          → IsSettled (elim o [
            | none ↦ s
            | some w ↦ record s { busy = false; running = none; panel = complain e s.panel }
          ])) [
            | none ↦ λ q. (h, q)
            | some w ↦ λ q. (record { shown = h.shown; waits = refl }, refl)
          ]
      h.waits

step-IsReady :
    (team : Text) (e : Event) (s : Rollover) → IsOffered e s → IsReady s → IsReady (step team e s)
unfolding rollover_loaded row_answered set_row_status
step-IsReady team (click_row id) s o h = toggle_row-IsReady id s o h
step-IsReady team (click_group ids) s o h = toggle_group-IsReady ids s o h
step-IsReady team click_all s o h = toggle_all-IsReady s h
step-IsReady team clear_click s o h = record { shown = tt; waits = h.waits }
step-IsReady team (pick_status id status) s o h = record { shown = h.shown; waits = h.waits }
step-IsReady team (click_move current) s o h = bulk_move-IsReady current s h
step-IsReady team click_done s o h = bulk_status-IsReady _ _ s h
step-IsReady team click_cancel s o h = bulk_status-IsReady _ _ s h
step-IsReady team undo_click s o h = record {
  shown = rw (undo_click-selected s.panel) h.shown;
  waits = h.waits;
}
step-IsReady team toast_gone s o h = record { shown = h.shown; waits = h.waits }
step-IsReady team (load_answer d) s o h = record {
  shown = loaded-All d.tasks s.panel.selected;
  waits = h.waits;
}
step-IsReady team (refusal e) s o h = record { shown = h.shown; waits = h.waits }
step-IsReady team (bulk_refusal e) s o h = (refused-IsSettled e s h).0
step-IsReady team bulk_answer s o h = (answered-IsSettled team s h).0
step-IsReady team row_answer s o h = record { shown = h.shown; waits = h.waits }

-- In every state that the rollover reaches, each selected identifier is that of a task shown, and
-- the view is busy exactly when a bulk action waits for its answer.
pub Reach-IsReady : (team : Text) {s : Rollover} → Reach team s → IsReady s
Reach-IsReady team start = record { shown = tt; waits = refl }
Reach-IsReady team (next {s} r e o) = step-IsReady team e s o (Reach-IsReady team r)

-- In every state that the rollover reaches, the server's answer and its refusal both leave the view
-- ready for the next action.
pub Reach-settled :
    (team e : Text) {s : Rollover}
    → Reach team s
    → ((bulk_answered team s).busy ≡ false) × ((bulk_refused e s).busy ≡ false)
Reach-settled team e {s} r = (
  (answered-IsSettled team s (Reach-IsReady team r)).1,
  (refused-IsSettled e s (Reach-IsReady team r)).1,
)
