-- ===== src/Team/Kept.antt =====
-- What the operations of the page of a team keep: a selection of tasks of the board, and calls that
-- name what they must.
use task_man.Prelude.{
  ◌≡◌, Bool, true, false, List, [], ◌∷◌, map, Option, if◌then◌else◌, All, All-append,
}
use task_man.Text.{Text, is_empty}
use task_man.Api.Types.{Change, put}
use task_man.Api.Requests.{Request, create_member, update_member, update_team}
use task_man.Picks.{has, is_none_left}
use task_man.Panel.{post, undo_of}
use task_man.Team.{all_tasks}
use task_man.Team.Page.{BoardRef, reload_at, TeamPage, Waiting, patching, deleting, reload_all}
use task_man.Team.Bulk.{
  start_action, bulk_assign, bulk_set_due, bulk_mark_done, bulk_delete, assign_undo, assign_call,
  due_undo, due_call, done_call, done_undo,
}

-- A member and a team are never sent an empty name.
abbrev pub HasName : Change Text → Type 0
HasName (put name) = is_empty name ≡ false
HasName _ = Unit

abbrev pub IsProper : Request → Type 0
IsProper (create_member name email role teams) = is_empty name ≡ false
IsProper (update_member id p) = HasName p.name
IsProper (update_team id name) = is_empty name ≡ false
IsProper _ = Unit

abbrev pub HasProperUndo : Waiting → Type 0
HasProperUndo (patching b message undo) = All IsProper undo
HasProperUndo (deleting b n) = Unit

abbrev pub board_ids : TeamPage → List Text
board_ids s = map (λ t. t.id) (all_tasks s.board)

-- The selection is of tasks of the board, and the calls made and to be made name what they must.
pub record IsProperPage (s : TeamPage) : Type 0 where
  pub shown : All (λ id. has id (board_ids s) ≡ true) s.panel.selected
  pub sent : All IsProper s.panel.sent
  pub undo : All IsProper (undo_of s.panel)
  pub awaited : All HasProperUndo s.running

All-map :
    {A : Type 0} (f : A → Request) (xs : List A)
    → ((x : A) → IsProper (f x))
    → All IsProper (map f xs)
All-map f [] h = tt
All-map f (x ∷ xs) h = (h x, All-map f xs h)

pub unless-Proper :
    (b : Bool) (s t : TeamPage)
    → IsProperPage s
    → IsProperPage t
    → IsProperPage (if b then s else t)
unless-Proper true s t h k = h
unless-Proper false s t h k = k

pub send-Proper :
    (rs : List Request) (s : TeamPage)
    → All IsProper rs
    → IsProperPage s
    → IsProperPage (record s { panel = post rs s.panel })
send-Proper rs s q h = record {
  shown = h.shown;
  sent = All-append IsProper s.panel.sent rs h.sent q;
  undo = h.undo;
  awaited = h.awaited;
}

pub reload-Proper : (b : BoardRef) (s : TeamPage) → IsProperPage s → IsProperPage (reload_at b s)
unfolding reload_at
reload-Proper b s h = record {
  shown = h.shown;
  sent = All-append IsProper s.panel.sent _ h.sent (tt, tt);
  undo = h.undo;
  awaited = h.awaited;
}

pub reload_all-Proper :
    (b : BoardRef) (s : TeamPage) → IsProperPage s → IsProperPage (reload_all b s)
reload_all-Proper b s h = record {
  shown = h.shown;
  sent = All-append IsProper s.panel.sent _ h.sent (tt, tt);
  undo = h.undo;
  awaited = h.awaited;
}

action-Proper :
    (w : Waiting) (calls : List Request) (s : TeamPage)
    → HasProperUndo w
    → All IsProper calls
    → IsProperPage s
    → IsProperPage (start_action w calls s)
action-Proper w calls s p q h = record {
  shown = tt;
  sent = All-append IsProper s.panel.sent calls h.sent q;
  undo = h.undo;
  awaited = (p, h.awaited);
}

pub assign-Proper :
    (who : Option Text) (m : Text) (s : TeamPage)
    → IsProperPage s
    → IsProperPage (bulk_assign who m s)
unfolding bulk_assign
assign-Proper who m s h = unless-Proper (is_none_left s.panel.selected) s (start_action _ _ s) h (
    action-Proper _ _ s (All-map assign_undo _ (λ r. tt))
      (All-map (assign_call who) s.panel.selected (λ i. tt)) h)

pub due-Proper : (due : Text) (s : TeamPage) → IsProperPage s → IsProperPage (bulk_set_due due s)
unfolding bulk_set_due
due-Proper due s h = unless-Proper (is_none_left s.panel.selected) s (start_action _ _ s) h (
    action-Proper _ _ s (All-map due_undo _ (λ r. tt))
      (All-map (due_call due) s.panel.selected (λ i. tt)) h)

pub done-Proper : (s : TeamPage) → IsProperPage s → IsProperPage (bulk_mark_done s)
unfolding bulk_mark_done
done-Proper s h =
    unless-Proper (is_none_left s.panel.selected) s (start_action _ _ s) h
      (action-Proper _ _ s (All-map done_undo _ (λ r. tt)) (All-map done_call _ (λ i. tt)) h)

pub delete-Proper : (s : TeamPage) → IsProperPage s → IsProperPage (bulk_delete s)
unfolding bulk_delete
delete-Proper s h =
    unless-Proper (is_none_left s.panel.selected) s (start_action _ _ s) h
      (action-Proper _ _ s tt (All-map Request.delete_task s.panel.selected (λ i. tt)) h)
