-- ===== src/Row/Kept.antt =====
-- What holds of a row at every moment.
use task_man.Prelude.{
  suc, ◌≡◌, refl, ap, ◌++◌, arith, Bool, true, false, ◌&&◌, ◌||◌, List, [], ◌∷◌, Option, none, some,
  is_some, if◌then◌else◌,
}
use task_man.Text.{Text}
use task_man.Api.Types.{Status, TaskView}
use task_man.Api.Requests.{Request}
use task_man.Attention.Selection.{Toast}
use task_man.Row.{
  open_row, undo_clicked, undo_answered, undo_refused, RowCall, patching, rescheduling,
  deleting_task, Row, fresh_row, start_call, is_done, set_status, mark_done, reschedule_today,
  handle_delete, finish_call, call_answered, call_refused, collapsed,
}

pub data Event : Type 0 where
  pick_status : Status → Event
  click_done click_today click_delete collapse click_row click_undo undo_answer : Event
  answer : List TaskView → Event
  refusal undo_refusal : Text → Event

module _ (task : TaskView) where
  abbrev pub step : Event → Row → Row
  step (pick_status status) s = set_status task status s
  step click_done s = mark_done task s
  step click_today s = reschedule_today task s
  step click_delete s = handle_delete task s
  step collapse s = collapsed s
  step click_row s = open_row s
  step click_undo s = undo_clicked s
  step undo_answer s = undo_answered s
  step (undo_refusal e) s = undo_refused e s
  step (answer deleted) s = call_answered task deleted s
  step (refusal e) s = call_refused e s

  pub data Reach : Row → Type 0 where
    start : Reach fresh_row
    next : {s : Row} → Reach s → (e : Event) → Reach (step e s)

-- A row is busy as long as a call is awaited, and for good once it is deleted; no call is awaited then.
abbrev pub IsGuarded : Row → Type 0
IsGuarded s =
    (s.busy ≡ (is_some s.running || s.deleting)) × ((is_some s.running && s.deleting) ≡ false)

start-IsGuarded :
    (c : RowCall) (r : Request) (b : Bool) (s : Row)
    → IsGuarded s
    → (b ≡ false → s.busy ≡ false)
    → IsGuarded (if b then s else start_call c r s)
start-IsGuarded c r true s h i = h
start-IsGuarded c r false s h i = (refl, ground (arith, h, i))

opened-IsGuarded :
    (b : Bool) (s : Row)
    → IsGuarded s
    → IsGuarded (if b then s else record s { opened = suc s.opened })
opened-IsGuarded true s h = h
opened-IsGuarded false s h = h

undo-IsGuarded :
    (o : Option Toast) (s : Row)
    → IsGuarded s
    → IsGuarded (elim o as (λ p. Row) [
      | none ↦ s
      | some t ↦ record s { toast = none; sent = s.sent ++ t.undo }
    ])
undo-IsGuarded none s h = h
undo-IsGuarded (some t) s h = h

kept : (b : Bool) (s t : Row) → b ≡ true → (if b then s else t) ≡ s
kept true s t e = refl
kept false s t e = ground (arith, e)

either-busy : (a b : Bool) → (a || b) ≡ false → a ≡ false
either-busy true b e = e
either-busy false b e = refl

module _ (task : TaskView) where
  set_status-IsGuarded :
      (status : Status) (s : Row) → IsGuarded s → IsGuarded (set_status task status s)
  unfolding set_status
  set_status-IsGuarded status s h = start-IsGuarded patching _ s.busy s h (λ e. e)

  done-IsGuarded :
      (b : Bool) (s : Row)
      → IsGuarded s
      → IsGuarded (if b then s else set_status task Status.done s)
  done-IsGuarded true s h = h
  done-IsGuarded false s h = set_status-IsGuarded Status.done s h

  finish-IsGuarded :
      (deleted : List TaskView) (c : RowCall) (s : Row)
      → s.deleting ≡ false
      → s.busy ≡ true
      → IsGuarded (finish_call task deleted c s)
  finish-IsGuarded deleted patching s d b = (rw d refl, refl)
  finish-IsGuarded deleted rescheduling s d b = (rw d refl, refl)
  finish-IsGuarded deleted deleting_task s d b = (b, refl)

  answered-IsGuarded :
      (deleted : List TaskView) (o : Option RowCall) (s : Row)
      → s.running ≡ o
      → IsGuarded s
      → IsGuarded (elim o as (λ p. Row) [ none ↦ s | some c ↦ finish_call task deleted c s ])
  answered-IsGuarded deleted none s e h = h
  answered-IsGuarded deleted (some c) s e h =
      finish-IsGuarded deleted c s (ground (arith, e, h)) (ground (arith, e, h))

refused-IsGuarded :
    (e : Text) (o : Option RowCall) (s : Row)
    → s.running ≡ o
    → IsGuarded s
    → IsGuarded (elim o as (λ p. Row) [
      | none ↦ s
      | some c ↦ record s { busy = false; running = none; alerts = s.alerts ++ e ∷ [] }
    ])
refused-IsGuarded e none s q h = h
refused-IsGuarded e (some c) s q h = (ground (arith, q, h), refl)

module _ (task : TaskView) where
  step-IsGuarded : (e : Event) (s : Row) → IsGuarded s → IsGuarded (step task e s)
  unfolding mark_done reschedule_today handle_delete call_answered call_refused open_row
      undo_clicked
  step-IsGuarded (pick_status status) s h = set_status-IsGuarded task status s h
  step-IsGuarded click_done s h = done-IsGuarded task (s.busy || is_done task.status) s h
  step-IsGuarded click_today s h = start-IsGuarded rescheduling _ s.busy s h (λ e. e)
  step-IsGuarded click_delete s h =
      start-IsGuarded deleting_task _ (s.busy || s.deleting) s h
        (λ e. either-busy s.busy s.deleting e)
  step-IsGuarded collapse s h = h
  step-IsGuarded click_row s h = opened-IsGuarded s.deleting s h
  step-IsGuarded click_undo s h = undo-IsGuarded s.toast s h
  step-IsGuarded undo_answer s h = h
  step-IsGuarded (undo_refusal e) s h = h
  step-IsGuarded (answer deleted) s h = answered-IsGuarded task deleted s.running s refl h
  step-IsGuarded (refusal e) s h = refused-IsGuarded e s.running s refl h

  Reach-IsGuarded : {s : Row} → Reach task s → IsGuarded s
  Reach-IsGuarded start = (refl, refl)
  Reach-IsGuarded (next {s} r e) = step-IsGuarded e s (Reach-IsGuarded r)

  -- In every state that a row reaches, once it is deleted or as long as a call is awaited, the status
  -- control and the buttons for done, for today and for the deletion do nothing.
  pub Reach-quiet :
      {s : Row}
      → Reach task s
      → (is_some s.running || s.deleting) ≡ true
      → (status : Status)
      → (set_status task status s ≡ s)
        × (mark_done task s ≡ s)
        × (reschedule_today task s ≡ s)
        × (handle_delete task s ≡ s)
  unfolding set_status mark_done reschedule_today handle_delete
  Reach-quiet {s} r b status =
      let busy : s.busy ≡ true = ground (arith, Reach-IsGuarded r, b) in
      (
        kept s.busy _ _ busy,
        kept (s.busy || is_done task.status) _ _ (ap (λ c. c || is_done task.status) busy),
        kept s.busy _ _ busy,
        kept (s.busy || s.deleting) _ _ (ap (λ c. c || s.deleting) busy),
      )
