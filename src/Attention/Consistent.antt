-- ===== src/Attention/Consistent.antt =====
-- What holds of the attention view at every moment.
use task_man.Prelude.{
  ℕ, ◌≡◌, inl, inr, refl, Bool, true, false, ◌||◌, List, [], ◌∷◌, map, Option, none, some, is_some,
  if◌then◌else◌, get_or, length, All, Bool-cases,
}
use task_man.Text.{Text, is_empty}
use task_man.Period.{LabelStyle}
use task_man.Api.Types.{TaskView}
use task_man.Attention.Selection.{
  Request, Bulk, rescheduling, scheduling, marking, deleting, moving, all_selected, reschedule, has,
  Attention, fresh, ids_of, task_by_id, all_ids, toggle, toggle_select_all, loaded, reload, fail,
  send, dismiss_toast, is_none_left,
}
use task_man.Attention.Bulk.{
  all_in, idle, run_reschedule, run_schedule_for, run_mark_done, run_delete, run_move_to_backlog,
  await, schedule_calls, slot_of, found_in,
}
use task_man.Attention.Events.{
  Event, click_row, click_section, click_select_all, clear_selection, pick_date, filter_by,
  open_task, close_task, task_changed, click_reschedule, click_schedule, click_done, click_delete,
  click_move, click_undo, toast_expired, load_answer, load_refused, bulk_refused, undo_refused,
  bulk_answer, undo_answer, step, answered, refused, undo_clicked, undone, bulk_done,
}
use task_man.Picks.Chosen.{add_all-All, toggled-All, section_toggled-All, keep_if-holds, ids-All}

-- The rows and the sections that are on the screen are those of the tasks shown.
abbrev pub IsOffered : Event → Attention → Type 0
IsOffered (click_row id) s = has id (all_ids s) ≡ true
IsOffered (click_section ids) s = All (λ id. has id (all_ids s) ≡ true) ids
IsOffered _ s = Unit

module _ (locale : LabelStyle → ℕ → Text) (is_admin : Bool) where
  pub data Reach : Attention → Type 0 where
    start : (tags : List Text) → Reach (fresh tags)
    next :
        {s : Attention} → Reach s → (e : Event) → IsOffered e s → Reach (step locale is_admin e s)

-- Every selected identifier is that of a task shown, and the view is busy when an action waits.
pub record IsConsistent (s : Attention) : Type 0 where
  pub shown : All (λ id. has id (all_ids s) ≡ true) s.selected
  pub waits : s.busy ≡ is_some s.running

fresh-IsConsistent : (tags : List Text) → IsConsistent (fresh tags)
fresh-IsConsistent tags = record { shown = tt; waits = refl }

toggle-IsConsistent :
    (id : Text) (s : Attention)
    → has id (all_ids s) ≡ true
    → IsConsistent s
    → IsConsistent (toggle id s)
unfolding toggle dismiss_toast
toggle-IsConsistent id s q h = elim (Bool-cases (is_none_left s.selected)) [
  | inl e ↦ rw e (record {
    shown = toggled-All (λ i. has i (all_ids s) ≡ true) id s.selected q h.shown;
    waits = h.waits;
  })
  | inr e ↦ rw e (record {
    shown = toggled-All (λ i. has i (all_ids s) ≡ true) id s.selected q h.shown;
    waits = h.waits;
  })
]

toggle_select_all-IsConsistent :
    (s : Attention) → IsConsistent s → IsConsistent (toggle_select_all s)
unfolding toggle_select_all
toggle_select_all-IsConsistent s h = record {
  shown = elim (Bool-cases (all_selected s)) [
    | inl e ↦ rw e tt
    | inr e ↦
        rw e (add_all-All (λ i. has i (all_ids s) ≡ true) (all_ids s) [] (ids-All (all_ids s)) tt)
  ];
  waits = h.waits;
}

await-IsConsistent :
    (b : Bulk) (calls : List Request) (s : Attention)
    → IsConsistent s
    → IsConsistent (await b calls s)
await-IsConsistent b calls s h = record { shown = h.shown; waits = refl }

unless-IsConsistent :
    (b : Bool) (s t : Attention)
    → IsConsistent s
    → IsConsistent t
    → IsConsistent (if b then s else t)
unless-IsConsistent true s t h k = h
unless-IsConsistent false s t h k = k

unless-get_or-IsConsistent :
    (b : Bool) (s : Attention) (t : Option Attention)
    → IsConsistent s
    → IsConsistent (get_or t s)
    → IsConsistent (get_or (if b then some s else t) s)
unless-get_or-IsConsistent true s t h k = h
unless-get_or-IsConsistent false s t h k = k

run_reschedule-IsConsistent :
    (s : Attention) → IsConsistent s → IsConsistent (get_or (run_reschedule s) s)
unfolding run_reschedule
run_reschedule-IsConsistent s h =
    unless-get_or-IsConsistent (idle s) s _ h (answer (all_in (task_by_id s) s.selected))
  where
    answer :
        (ts : Option (List TaskView))
        → IsConsistent (
            get_or
              (elim ts [
                | none ↦ none
                | some us ↦ some (
                    await
                      (rescheduling (length s.selected) (map slot_of us))
                      (reschedule s.selected ∷ [])
                      s)
              ])
              s)
    answer none = h
    answer (some us) = await-IsConsistent _ _ s h

run_schedule_for-IsConsistent :
    (s : Attention) → IsConsistent s → IsConsistent (get_or (run_schedule_for s) s)
unfolding run_schedule_for
run_schedule_for-IsConsistent s h =
    unless-get_or-IsConsistent (idle s || is_empty s.schedule_date) s _ h
      (answer (schedule_calls s.schedule_date found))
  where
    found : List TaskView
    found = found_in (task_by_id s) s.selected

    answer :
        (calls : Option (List Request))
        → IsConsistent (
            get_or
              (elim calls [
                | none ↦ none
                | some cs ↦ some (
                    await
                      (scheduling s.schedule_date
                        (map slot_of (found_in (task_by_id s) s.selected)))
                      cs
                      s)
              ])
              s)
    answer none = h
    answer (some cs) = await-IsConsistent _ _ s h

run_mark_done-IsConsistent : (s : Attention) → IsConsistent s → IsConsistent (run_mark_done s)
unfolding run_mark_done
run_mark_done-IsConsistent s h = unless-IsConsistent (idle s) s _ h (await-IsConsistent _ _ s h)

run_delete-IsConsistent : (s : Attention) → IsConsistent s → IsConsistent (run_delete s)
unfolding run_delete
run_delete-IsConsistent s h = unless-IsConsistent (idle s) s _ h (await-IsConsistent _ _ s h)

run_move_to_backlog-IsConsistent :
    (is_admin : Bool) (s : Attention)
    → IsConsistent s
    → IsConsistent (run_move_to_backlog is_admin s)
unfolding run_move_to_backlog
run_move_to_backlog-IsConsistent is_admin s h =
    unless-IsConsistent (idle s) s _ h (await-IsConsistent _ _ s h)

bulk_done-IsConsistent :
    (locale : LabelStyle → ℕ → Text) (results : List (List TaskView)) (tags : List Text) (b : Bulk)
    (s : Attention)
    → IsConsistent (bulk_done locale results tags b s)
unfolding reload
bulk_done-IsConsistent locale results tags (rescheduling n slots) s = record {
  shown = tt;
  waits = refl;
}
bulk_done-IsConsistent locale results tags (scheduling date slots) s = record {
  shown = tt;
  waits = refl;
}
bulk_done-IsConsistent locale results tags (marking slots) s = record { shown = tt; waits = refl }
bulk_done-IsConsistent locale results tags (deleting n) s = record { shown = tt; waits = refl }
bulk_done-IsConsistent locale results tags (moving n slots) s = record { shown = tt; waits = refl }

answered-IsConsistent :
    (locale : LabelStyle → ℕ → Text) (results : List (List TaskView)) (s : Attention)
    → IsConsistent s
    → IsConsistent (answered locale results s)
unfolding answered
answered-IsConsistent locale results s h =
    elim s.running
      as (λ o.
        IsConsistent (elim o [ none ↦ s | some r ↦ bulk_done locale results r.tags r.bulk s ])) [
          | none ↦ h
          | some r ↦ bulk_done-IsConsistent locale results r.tags r.bulk s
        ]

refused-IsConsistent : (e : Text) (s : Attention) → IsConsistent s → IsConsistent (refused e s)
unfolding refused
refused-IsConsistent e s h =
    elim s.running
      as (λ o.
        IsConsistent
          (elim o [ none ↦ s | some r ↦ record (fail e s) { busy = false; running = none } ])) [
            | none ↦ h
            | some r ↦ record { shown = h.shown; waits = refl }
          ]

undo_clicked-IsConsistent : (s : Attention) → IsConsistent s → IsConsistent (undo_clicked s)
unfolding undo_clicked dismiss_toast
undo_clicked-IsConsistent s h =
    elim s.toast
      as (λ o. IsConsistent (elim o [ none ↦ s | some t ↦ dismiss_toast (send t.undo s) ])) [
        | none ↦ h
        | some t ↦ record { shown = h.shown; waits = h.waits }
      ]

-- Each event keeps the view sound.
step-IsConsistent :
    (locale : LabelStyle → ℕ → Text) (is_admin : Bool) (e : Event) (s : Attention)
    → IsOffered e s
    → IsConsistent s
    → IsConsistent (step locale is_admin e s)
unfolding reload loaded dismiss_toast undone
step-IsConsistent locale is_admin (click_row id) s o h = toggle-IsConsistent id s o h
step-IsConsistent locale is_admin (click_section ids) s o h = record {
  shown = section_toggled-All (λ i. has i (all_ids s) ≡ true) ids s.selected o h.shown;
  waits = h.waits;
}
step-IsConsistent locale is_admin click_select_all s o h = toggle_select_all-IsConsistent s h
step-IsConsistent locale is_admin clear_selection s o h = record { shown = tt; waits = h.waits }
step-IsConsistent locale is_admin (pick_date none) s o h = record {
  shown = h.shown;
  waits = h.waits;
}
step-IsConsistent locale is_admin (pick_date (some d)) s o h = record {
  shown = h.shown;
  waits = h.waits;
}
step-IsConsistent locale is_admin (filter_by tags) s o h = record {
  shown = h.shown;
  waits = h.waits;
}
step-IsConsistent locale is_admin (open_task id) s o h = record { shown = h.shown; waits = h.waits }
step-IsConsistent locale is_admin close_task s o h = record { shown = h.shown; waits = h.waits }
step-IsConsistent locale is_admin task_changed s o h = record { shown = h.shown; waits = h.waits }
step-IsConsistent locale is_admin click_reschedule s o h = run_reschedule-IsConsistent s h
step-IsConsistent locale is_admin click_schedule s o h = run_schedule_for-IsConsistent s h
step-IsConsistent locale is_admin click_done s o h = run_mark_done-IsConsistent s h
step-IsConsistent locale true click_delete s o h = run_delete-IsConsistent s h
step-IsConsistent locale false click_delete s o h = h
step-IsConsistent locale is_admin click_move s o h = run_move_to_backlog-IsConsistent is_admin s h
step-IsConsistent locale is_admin click_undo s o h = undo_clicked-IsConsistent s h
step-IsConsistent locale is_admin toast_expired s o h = record { shown = h.shown; waits = h.waits }
step-IsConsistent locale is_admin (load_answer d) s o h = record {
  shown = keep_if-holds (λ id. has id (ids_of d)) s.selected;
  waits = h.waits;
}
step-IsConsistent locale is_admin (load_refused e) s o h = record {
  shown = h.shown;
  waits = h.waits;
}
step-IsConsistent locale is_admin (bulk_refused e) s o h = refused-IsConsistent e s h
step-IsConsistent locale is_admin (undo_refused e) s o h = record {
  shown = h.shown;
  waits = h.waits;
}
step-IsConsistent locale is_admin (bulk_answer results) s o h =
    answered-IsConsistent locale results s h
step-IsConsistent locale is_admin (undo_answer tags) s o h = record {
  shown = h.shown;
  waits = h.waits;
}

-- In every state that the view reaches, each selected identifier is that of a task shown, and the
-- view is busy exactly when a bulk action waits for its answer.
pub Reach-IsConsistent :
    (locale : LabelStyle → ℕ → Text) (is_admin : Bool) {s : Attention}
    → Reach locale is_admin s
    → IsConsistent s
Reach-IsConsistent locale is_admin (start tags) = fresh-IsConsistent tags
Reach-IsConsistent locale is_admin (next {s} r e o) =
    step-IsConsistent locale is_admin e s o (Reach-IsConsistent locale is_admin r)
