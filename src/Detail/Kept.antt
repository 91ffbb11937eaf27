-- ===== src/Detail/Kept.antt =====
-- The panel of a task shows the task that it is on.
use task_man.Prelude.{
  ℕ, suc, ◌==◌, ◌≤◌, ==_iff, ◌≡◌, refl, subst, arith, All, All-weaken, List, ◌∷◌, sym, ◌∙◌, inl,
  inr, ◌⊎◌, Bool, true, false, ◌||◌, [], Option, none, some, is_some, if◌then◌else◌, get_or,
  Bool-cases,
}
use task_man.Text.{Text, text_eq, is_empty, trim}
use task_man.Text.Laws.{text_eq_iff}
use task_man.Period.{Now}
use task_man.Api.Types.{Recurrence, TaskView, UpdateTaskInput}
use task_man.Api.Requests.{Request, update_task}
use task_man.Detail.{edited}
use task_man.Detail.Panel.{
  DetailTask, NoteCall, adding, editing, removing, Detail, navigate, load_answered, load_refused,
  send_patch, patch_answered, patch_refused, patch_repeat, reload_answered, if_shown,
  refresh_answered, post_note, save_edit_note, start_note, remove_note, note_called, note_refreshed,
  add_subtask, delete_shown, shown_deleted, delete_refused, with_children, send,
}
use task_man.Detail.Steps.{
  Event, go_to, load_answer, load_refusal, type_title, type_notes, type_subtask, type_note,
  type_note_date, type_edit, type_edit_date, pick_subtask_horizon, leave_title, leave_notes,
  send_change, edit_repeat, switch_repeat, patch_answer, patch_refusal, tags_refusal, reload_answer,
  click_add_note, click_save_note, click_edit_note, click_cancel_note, click_delete_note,
  note_answer, note_refresh, note_refusal, click_subtask, click_add_subtask, subtask_answer,
  subtask_add_answer, subtask_delete_answer, click_delete, delete_answer, delete_refusal,
  click_close, for_call, step, Shows, FitsCall, IsAsked, IsOffered, Reach, start, next, IsCurrent,
}

unless-IsCurrent :
    (b : Bool) (s t : Detail) → IsCurrent s → IsCurrent t → IsCurrent (if b then s else t)
unless-IsCurrent true s t h k = h
unless-IsCurrent false s t h k = k

send_patch-IsCurrent : (p : UpdateTaskInput) (s : Detail) → IsCurrent s → IsCurrent (send_patch p s)
unfolding send_patch
send_patch-IsCurrent p s h =
    elim s.shown
      as (λ o. IsCurrent (elim o [
        | none ↦ s
        | some d ↦ send (update_task d.task.id p) (record s { is_saving = true })
      ])) [ none ↦ h | some d ↦ record { current = h.current; awaited = h.awaited } ]

repeat_edited-IsCurrent :
    (o : Option Recurrence) (s : Detail)
    → IsCurrent s
    → IsCurrent (elim o as (λ p. Detail) [ none ↦ s | some q ↦ patch_repeat (some q) s ])
repeat_edited-IsCurrent none s h = h
repeat_edited-IsCurrent (some q) s h = send_patch-IsCurrent _ s h

note-IsCurrent :
    (w : NoteCall) (r : Request) (s : Detail) → IsCurrent s → IsCurrent (start_note w r s)
note-IsCurrent w r s h = record { current = h.current; awaited = refl }

-- A patch's answer keeps the identifier that is shown.
same-Shows :
    (t : TaskView) (id : Text) (o : Option DetailTask)
    → Shows t.id o
    → Shows id o
    → Shows id (with_children t o)
same-Shows t id none a h = tt
same-Shows t id (some d) a h = sym a ∙ h

-- A task asked for again is shown only in the place of itself.
refresh-Shows :
    (i id : Text) (d : DetailTask) (o : Option DetailTask)
    → d.task.id ≡ i
    → Shows id o
    → Shows id (if_shown i d o)
refresh-Shows i id d none e h = tt
refresh-Shows i id d (some p) e h = elim (Bool-cases (text_eq p.task.id i)) [
  | inl c ↦ rw c (e ∙ (sym ((text_eq_iff p.task.id i).0 c) ∙ h))
  | inr c ↦ rw c h
]

either : {P Q : Type 0} (b : Bool) → (P → Q) → (b ≡ true) ⊎ P → (b ≡ true) ⊎ Q
either b f (inl e) = inl e
either b f (inr p) = inr (f p)

note_refreshed-IsCurrent :
    (d : DetailTask) (o : Option NoteCall) (s : Detail)
    → FitsCall d o
    → IsCurrent s
    → IsCurrent (for_call o (note_refreshed d) s)
unfolding refresh_answered
note_refreshed-IsCurrent d none s e h = h
note_refreshed-IsCurrent d (some (adding id)) s e h = record {
  current =
      either (s.loading || is_some s.error) (refresh-Shows id s.current_id d s.shown e) h.current;
  awaited = refl;
}
note_refreshed-IsCurrent d (some (editing id)) s e h = record {
  current =
      either (s.loading || is_some s.error) (refresh-Shows id s.current_id d s.shown e) h.current;
  awaited = refl;
}
note_refreshed-IsCurrent d (some (removing id a)) s e h = record {
  current =
      either (s.loading || is_some s.error) (refresh-Shows id s.current_id d s.shown e) h.current;
  awaited = refl;
}

note_called-IsCurrent :
    (now : Now) (o : Option NoteCall) (s : Detail)
    → IsCurrent s
    → IsCurrent (for_call o (note_called now) s)
note_called-IsCurrent now none s h = h
note_called-IsCurrent now (some (adding id)) s h = record {
  current = h.current;
  awaited = h.awaited;
}
note_called-IsCurrent now (some (editing id)) s h = record {
  current = h.current;
  awaited = h.awaited;
}
note_called-IsCurrent now (some (removing id a)) s h = record {
  current = h.current;
  awaited = h.awaited;
}

-- The loads are of no later number, and the last one is of the task that the panel is on.
abbrev IsOld : ℕ → ℕ × Text → Type 0
IsOld n p = p.0 ≤ n

abbrev IsOwn : ℕ → Text → ℕ × Text → Type 0
IsOwn n id p = (p.0 ≡ n) → p.1 ≡ id

abbrev AreOwn : Detail → Type 0
AreOwn s = All (IsOld s.fetch) s.loads × All (IsOwn s.fetch s.current_id) s.loads

asked-own :
    (n : ℕ) (id i : Text) (l : List (ℕ × Text)) → All (IsOwn n id) l → IsAsked n i l → i ≡ id
asked-own n id i [] h x = absurd x
asked-own n id i ((m, j) ∷ l) (o, h) (inl (e, r)) = r ∙ o (sym e)
asked-own n id i ((m, j) ∷ l) (o, h) (inr x) = asked-own n id i l h x

load-IsCurrent :
    (k : ℕ) (d : DetailTask) (s : Detail)
    → IsAsked k d.task.id s.loads
    → AreOwn s
    → IsCurrent s
    → IsCurrent (load_answered k d s)
unfolding load_answered
load-IsCurrent k d s o (old, own) h = elim (Bool-cases (k == s.fetch)) [
  | inl e ↦ rw e (record {
    current = inr (
        asked-own s.fetch s.current_id d.task.id s.loads own
          (subst (λ n. IsAsked n d.task.id s.loads) ((==_iff k s.fetch).0 e) o));
    awaited = h.awaited;
  })
  | inr e ↦ rw e h
]

moved-AreOwn :
    (id : Text) (n : ℕ) (l : List (ℕ × Text))
    → All (IsOld n) l
    → All (IsOld (suc n)) ((suc n, id) ∷ l) × All (IsOwn (suc n) id) ((suc n, id) ∷ l)
moved-AreOwn id n l h = (
  (omega arith, All-weaken (IsOld n) (IsOld (suc n)) (λ p q. omega (arith, q)) l h),
  (λ e. refl, All-weaken (IsOld n) (IsOwn (suc n) id) (λ p q e. absurd (later p q e)) l h),
)
  where
    later : (p : ℕ × Text) → p.0 ≤ n → p.0 ≡ suc n → ⊥
    later p q e = omega (arith, q, e)

unless-AreOwn : (b : Bool) (s t : Detail) → AreOwn s → AreOwn t → AreOwn (if b then s else t)
unless-AreOwn true s t h k = h
unless-AreOwn false s t h k = k

send_patch-AreOwn : (p : UpdateTaskInput) (s : Detail) → AreOwn s → AreOwn (send_patch p s)
unfolding send_patch
send_patch-AreOwn p s h =
    elim s.shown
      as (λ o. AreOwn (elim o [
        | none ↦ s
        | some d ↦ send (update_task d.task.id p) (record s { is_saving = true })
      ])) [ none ↦ h | some d ↦ h ]

repeat_edited-AreOwn :
    (o : Option Recurrence) (s : Detail)
    → AreOwn s
    → AreOwn (elim o as (λ p. Detail) [ none ↦ s | some q ↦ patch_repeat (some q) s ])
repeat_edited-AreOwn none s h = h
repeat_edited-AreOwn (some q) s h = send_patch-AreOwn _ s h

for_call-AreOwn :
    (f : NoteCall → Detail → Detail) (o : Option NoteCall) (s : Detail)
    → ((w : NoteCall) → AreOwn (f w s))
    → AreOwn s
    → AreOwn (for_call o f s)
for_call-AreOwn f none s g h = h
for_call-AreOwn f (some w) s g h = g w

note_called-AreOwn :
    (now : Now) (s : Detail) (w : NoteCall) → AreOwn s → AreOwn (note_called now w s)
note_called-AreOwn now s (adding id) h = h
note_called-AreOwn now s (editing id) h = h
note_called-AreOwn now s (removing id e) h = h

note_refreshed-AreOwn :
    (d : DetailTask) (s : Detail) (w : NoteCall) → AreOwn s → AreOwn (note_refreshed d w s)
unfolding refresh_answered
note_refreshed-AreOwn d s (adding id) h = h
note_refreshed-AreOwn d s (editing id) h = h
note_refreshed-AreOwn d s (removing id e) h = h

step-AreOwn : (e : Event) (s : Detail) → AreOwn s → AreOwn (step e s)
unfolding navigate load_answered load_refused patch_answered patch_refused reload_answered post_note
    save_edit_note remove_note add_subtask delete_shown shown_deleted delete_refused
step-AreOwn (go_to now id) s h =
    unless-AreOwn (text_eq id s.current_id) s _ h (moved-AreOwn id s.fetch s.loads h.0)
step-AreOwn (load_answer k d) s h = unless-AreOwn (k == s.fetch) _ s h h
step-AreOwn (load_refusal k e) s h =
    unless-AreOwn (k == s.fetch) (record s { error = some e; loading = false }) s h h
step-AreOwn (leave_title t) s h = unless-AreOwn _ (send_patch _ s) _ (send_patch-AreOwn _ s h) h
step-AreOwn (leave_notes t) s h = unless-AreOwn _ s (send_patch _ s) h (send_patch-AreOwn _ s h)
step-AreOwn (send_change p) s h = send_patch-AreOwn p s h
step-AreOwn (edit_repeat e r) s h = repeat_edited-AreOwn (edited e r) s h
step-AreOwn (switch_repeat t) s h = send_patch-AreOwn _ s h
step-AreOwn (click_add_note d) s h =
    unless-AreOwn (is_empty (trim s.note_text) || s.note_busy) s _ h h
step-AreOwn (click_save_note d) s h =
    unless-AreOwn
      (is_empty (get_or s.editing_note []) || (is_empty (trim s.edit_note_text) || s.note_busy)) s _
      h h
step-AreOwn (click_delete_note d e) s h = unless-AreOwn s.note_busy s _ h h
step-AreOwn (note_answer now) s h =
    for_call-AreOwn (note_called now) s.note_call s (λ w. note_called-AreOwn now s w h) h
step-AreOwn (note_refresh d) s h =
    for_call-AreOwn (note_refreshed d) s.note_call s (λ w. note_refreshed-AreOwn d s w h) h
step-AreOwn (click_add_subtask now d) s h =
    unless-AreOwn (is_empty (trim s.subtask_title)) s (send _ s) h h
step-AreOwn (click_delete d) s h =
    unless-AreOwn s.deleting_task s (send _ (record s { deleting_task = true })) h h
step-AreOwn (patch_answer t) s h = h
step-AreOwn (reload_answer d) s h = h
step-AreOwn (note_refusal e) s h = h
step-AreOwn (type_title v) s h = h
step-AreOwn (type_notes v) s h = h
step-AreOwn (type_subtask v) s h = h
step-AreOwn (type_note v) s h = h
step-AreOwn (type_note_date v) s h = h
step-AreOwn (type_edit v) s h = h
step-AreOwn (type_edit_date v) s h = h
step-AreOwn (pick_subtask_horizon c) s h = h
step-AreOwn (patch_refusal e) s h = h
step-AreOwn tags_refusal s h = h
step-AreOwn (click_edit_note e) s h = h
step-AreOwn click_cancel_note s h = h
step-AreOwn (click_subtask child) s h = h
step-AreOwn subtask_answer s h = h
step-AreOwn subtask_add_answer s h = h
step-AreOwn (subtask_delete_answer child deleted) s h = h
step-AreOwn (delete_answer t deleted) s h = h
step-AreOwn (delete_refusal e) s h = h
step-AreOwn click_close s h = h

Reach-AreOwn : (now : Now) {s : Detail} → Reach now s → AreOwn s
Reach-AreOwn now (start id) = ((omega arith, tt), (λ e. refl, tt))
Reach-AreOwn now (next {s} r e o) = step-AreOwn e s (Reach-AreOwn now r)

step-IsCurrent :
    (e : Event) (s : Detail) → IsOffered e s → AreOwn s → IsCurrent s → IsCurrent (step e s)
unfolding navigate load_refused patch_answered patch_refused reload_answered post_note
    save_edit_note remove_note add_subtask delete_shown shown_deleted delete_refused
step-IsCurrent (go_to now id) s o w h =
    unless-IsCurrent (text_eq id s.current_id) s _ h
      (record { current = inl refl; awaited = h.awaited })
step-IsCurrent (load_answer k d) s o w h = load-IsCurrent k d s o w h
step-IsCurrent (load_refusal k e) s o w h =
    unless-IsCurrent (k == s.fetch) (record s { error = some e; loading = false }) s
      (record { current = inl refl; awaited = h.awaited }) h
step-IsCurrent (leave_title t) s o w h =
    unless-IsCurrent _ (send_patch _ s) _ (send_patch-IsCurrent _ s h)
      (record { current = h.current; awaited = h.awaited })
step-IsCurrent (leave_notes t) s o w h =
    unless-IsCurrent _ s (send_patch _ s) h (send_patch-IsCurrent _ s h)
step-IsCurrent (send_change p) s o w h = send_patch-IsCurrent p s h
step-IsCurrent (edit_repeat e r) s o w h = repeat_edited-IsCurrent (edited e r) s h
step-IsCurrent (switch_repeat t) s o w h = send_patch-IsCurrent _ s h
step-IsCurrent (patch_answer t) s o w h = record {
  current = either (s.loading || is_some s.error) (same-Shows t s.current_id s.shown o) h.current;
  awaited = h.awaited;
}
step-IsCurrent (reload_answer d) s o w h = record { current = inr o; awaited = h.awaited }
step-IsCurrent (click_add_note d) s o w h =
    unless-IsCurrent (is_empty (trim s.note_text) || s.note_busy) s _ h (note-IsCurrent _ _ s h)
step-IsCurrent (click_save_note d) s o w h =
    unless-IsCurrent
      (is_empty (get_or s.editing_note []) || (is_empty (trim s.edit_note_text) || s.note_busy)) s _
      h (note-IsCurrent _ _ s h)
step-IsCurrent (click_delete_note d e) s o w h =
    unless-IsCurrent s.note_busy s _ h (note-IsCurrent _ _ s h)
step-IsCurrent (note_answer now) s o w h = note_called-IsCurrent now s.note_call s h
step-IsCurrent (note_refresh d) s o w h = note_refreshed-IsCurrent d s.note_call s o h
step-IsCurrent (note_refusal e) s o w h = record { current = h.current; awaited = refl }
step-IsCurrent (click_add_subtask now d) s o w h =
    unless-IsCurrent (is_empty (trim s.subtask_title)) s (send _ s) h
      (record { current = h.current; awaited = h.awaited })
step-IsCurrent (click_delete d) s o w h =
    unless-IsCurrent s.deleting_task s (send _ (record s { deleting_task = true })) h
      (record { current = h.current; awaited = h.awaited })
step-IsCurrent (type_title v) s o w h = record { current = h.current; awaited = h.awaited }
step-IsCurrent (type_notes v) s o w h = record { current = h.current; awaited = h.awaited }
step-IsCurrent (type_subtask v) s o w h = record { current = h.current; awaited = h.awaited }
step-IsCurrent (type_note v) s o w h = record { current = h.current; awaited = h.awaited }
step-IsCurrent (type_note_date v) s o w h = record { current = h.current; awaited = h.awaited }
step-IsCurrent (type_edit v) s o w h = record { current = h.current; awaited = h.awaited }
step-IsCurrent (type_edit_date v) s o w h = record { current = h.current; awaited = h.awaited }
step-IsCurrent (pick_subtask_horizon c) s o w h = record {
  current = h.current;
  awaited = h.awaited;
}
step-IsCurrent (patch_refusal e) s o w h = record { current = h.current; awaited = h.awaited }
step-IsCurrent tags_refusal s o w h = record { current = h.current; awaited = h.awaited }
step-IsCurrent (click_edit_note e) s o w h = record { current = h.current; awaited = h.awaited }
step-IsCurrent click_cancel_note s o w h = record { current = h.current; awaited = h.awaited }
step-IsCurrent (click_subtask child) s o w h = record { current = h.current; awaited = h.awaited }
step-IsCurrent subtask_answer s o w h = record { current = h.current; awaited = h.awaited }
step-IsCurrent subtask_add_answer s o w h = record { current = h.current; awaited = h.awaited }
step-IsCurrent (subtask_delete_answer child deleted) s o w h = record {
  current = h.current;
  awaited = h.awaited;
}
step-IsCurrent (delete_answer t deleted) s o w h = record {
  current = h.current;
  awaited = h.awaited;
}
step-IsCurrent (delete_refusal e) s o w h = record { current = h.current; awaited = h.awaited }
step-IsCurrent click_close s o w h = record { current = h.current; awaited = h.awaited }

-- In every state that the panel reaches, it shows the task that it is on, unless that is being loaded or
-- was refused, and it is busy with a note exactly when a note's call is awaited: whatever order the
-- answers to its loads and of its notes come in, where those to patches and to reloads come before the
-- panel goes to another task.
pub Reach-IsCurrent : (now : Now) {s : Detail} → Reach now s → IsCurrent s
Reach-IsCurrent now (start id) = record { current = inl refl; awaited = refl }
Reach-IsCurrent now (next {s} r e o) =
    step-IsCurrent e s o (Reach-AreOwn now r) (Reach-IsCurrent now r)
