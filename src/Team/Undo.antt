-- ===== src/Team/Undo.antt =====
-- The undo of the actions on a team's tasks, against their calls.
use task_man.Prelude.{
  zero, ◌≡◌, refl, ap, ◌∙◌, false, List, [], ◌∷◌, map, map-map, Option, some, get_or, length, drop,
  drop-append, All, All-weaken,
}
use task_man.Text.{Text}
use task_man.Api.Types.{Status, TaskView, put, UpdateTaskInput}
use task_man.Api.Requests.{update_task}
use task_man.Api.Patches.{no_change, put_or_null}
use task_man.Api.Undone.{TakesBack, Undoes, patches, patches-Undoes, ids_of_tasks, All-of}
use task_man.Picks.{is_none_left}
use task_man.Panel.{undo_of}
use task_man.Team.Page.{TeamPage}
use task_man.Team.Bulk.{
  task_of, due_in, due_slot, due_call, due_undo, bulk_set_due, action_answered,
}

-- The selection is of these tasks, and they are those of the board.
abbrev pub IsSelection : TeamPage → List TaskView → Type 0
IsSelection s ts =
    (s.panel.selected ≡ ids_of_tasks ts)
    × (is_none_left (ids_of_tasks ts) ≡ false)
    × All (λ t. task_of s t.id ≡ some t) ts

map-ids_of_tasks :
    {B : Type 0} (f : Text → B) (g : TaskView → B) (ts : List TaskView)
    → All (λ t. f t.id ≡ g t) ts
    → map f (ids_of_tasks ts) ≡ map g ts
map-ids_of_tasks f g [] h = refl
map-ids_of_tasks f g (t ∷ ts) (q, h) = cc (q, map-ids_of_tasks f g ts h)

assignee_back : TaskView → UpdateTaskInput
assignee_back t = record no_change { assignee_id = put_or_null t.assignee_id }

due_back : TaskView → UpdateTaskInput
due_back t = record no_change { due_date = put (get_or t.due_date []) }

done_patch : TaskView → UpdateTaskInput
done_patch t = record no_change { status = put Status.done }

done_back : TaskView → UpdateTaskInput
done_back t = record no_change { status = put t.status; week_of = put (get_or t.week_of []) }

abbrev give : Option Text → TaskView → UpdateTaskInput
give who t = record no_change { assignee_id = put_or_null who }

due_sent :
    (due : Text) (s : TeamPage) (ts : List TaskView)
    → IsSelection s ts
    → drop (length s.panel.sent) (bulk_set_due due s).panel.sent
      ≡ patches (λ t. record no_change { due_date = put due }) ts
unfolding bulk_set_due
due_sent due s ts (e, n, found) =
    rw (e, n)
      (drop-append s.panel.sent (map (due_call due) (ids_of_tasks ts))
        ∙ map-map (due_call due) (λ t. t.id) ts)

due_unsent :
    (due : Text) (s : TeamPage) (ts : List TaskView)
    → IsSelection s ts
    → undo_of (action_answered zero [] (bulk_set_due due s)).panel ≡ patches due_back ts
unfolding bulk_set_due action_answered due_back
due_unsent due s ts (e, n, found) =
    rw (e, n)
      (map-map due_undo (due_slot s) (ids_of_tasks ts)
        ∙ map-ids_of_tasks (λ id. due_undo (due_slot s id)) (λ t. update_task t.id (due_back t)) ts
            (All-weaken (λ t. task_of s t.id ≡ some t)
              (λ t. due_undo (due_slot s t.id) ≡ update_task t.id (due_back t))
              (λ t q. ap (λ o. due_call (due_in o) t.id) q) ts found))

due-TakesBack :
    (due : Text) (t : TaskView) → TakesBack (record no_change { due_date = put due }) (due_back t) t
unfolding due_back
due-TakesBack due t = record {
  title = tt;
  notes = tt;
  horizon = tt;
  period = tt;
  due_date = refl;
  status = tt;
  priority = tt;
  parent_id = tt;
  team_id = tt;
  assignee_id = tt;
  recurrence = tt;
  week_of = tt;
  tags = tt;
}

-- Setting or clearing the due date of the selected tasks, once it is answered, offers an undo that takes
-- back its calls, task by task: the due date gets the value that it had, and no field gets another
-- value; where the selection is of tasks of the board.
pub bulk_set_due-undo :
    (due : Text) (s : TeamPage) (ts : List TaskView)
    → IsSelection s ts
    → Undoes ts
        (drop (length s.panel.sent) (bulk_set_due due s).panel.sent)
        (undo_of (action_answered zero [] (bulk_set_due due s)).panel)
bulk_set_due-undo due s ts picked =
    rw (due_sent due s ts picked, due_unsent due s ts picked)
      (patches-Undoes (λ t. record no_change { due_date = put due }) due_back ts
        (All-of (λ t. TakesBack (record no_change { due_date = put due }) (due_back t) t)
          (due-TakesBack due) ts))
