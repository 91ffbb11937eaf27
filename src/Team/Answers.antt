-- ===== src/Team/Answers.antt =====
-- The answers to the actions of the page of a team, its Undo and its checkboxes: what they keep.
use task_man.Prelude.{
  ℕ, zero, suc, ◌≡◌, refl, inl, inr, true, List, [], ◌∷◌, Option, none, some, All, All-append,
  Bool-cases,
}
use task_man.Text.{Text}
use task_man.Api.Types.{TaskView}
use task_man.Picks.{has, is_none_left}
use task_man.Picks.Chosen.{toggled-All}
use task_man.Panel.{Panel, click_undo_on, undo_on, undo_in, undo_of}
use task_man.Attention.Selection.{Toast}
use task_man.Panel.Kept.{undo_click-selected}
use task_man.Team.Page.{TeamPage, Waiting, patching, deleting, toggle_select}
use task_man.Team.Bulk.{take_at, action_done, action_answered, action_refused}
use task_man.Team.Kept.{IsProper, HasProperUndo, board_ids, IsProperPage}

-- Taking one of the actions that are awaited.
abbrev ChosenProper : Option Waiting → Type 0
ChosenProper none = Unit
ChosenProper (some w) = HasProperUndo w

take_at-Proper :
    (n : ℕ) (ws : List Waiting)
    → All HasProperUndo ws
    → ChosenProper (take_at n ws).chosen × All HasProperUndo (take_at n ws).others
take_at-Proper n [] h = (tt, tt)
take_at-Proper zero (w ∷ ws) (p, h) = (p, h)
take_at-Proper (suc n) (w ∷ ws) (p, h) = let (q, k) = take_at-Proper n ws h in (q, (p, k))

picked-Proper :
    (n : ℕ) (results : List (List TaskView)) (s : TeamPage) (o : Option Waiting)
    → ChosenProper o
    → IsProperPage s
    → (t : TeamPage) → IsProperPage t
    → IsProperPage (elim o [ none ↦ s | some w ↦ action_done w results t ])
picked-Proper n results s none p h t k = h
picked-Proper n results s (some (patching b message undo)) p h t k = record {
  shown = k.shown;
  sent = All-append IsProper t.panel.sent _ k.sent (tt, tt);
  undo = p;
  awaited = k.awaited;
}
picked-Proper n results s (some (deleting b m)) p h t k = record {
  shown = k.shown;
  sent = All-append IsProper t.panel.sent _ k.sent (tt, tt);
  undo = (tt, tt);
  awaited = k.awaited;
}

without-Proper :
    (n : ℕ) (s : TeamPage)
    → IsProperPage s
    → IsProperPage (record s { running = (take_at n s.running).others })
without-Proper n s h = record {
  shown = h.shown;
  sent = h.sent;
  undo = h.undo;
  awaited = (take_at-Proper n s.running h.awaited).1;
}

pub answered-Proper :
    (n : ℕ) (results : List (List TaskView)) (s : TeamPage)
    → IsProperPage s
    → IsProperPage (action_answered n results s)
unfolding action_answered
answered-Proper n results s h =
    picked-Proper n results s (take_at n s.running).chosen (take_at-Proper n s.running h.awaited).0
      h (record s { running = (take_at n s.running).others }) (without-Proper n s h)

pub refused-Proper :
    (n : ℕ) (e : Text) (s : TeamPage) → IsProperPage s → IsProperPage (action_refused n e s)
unfolding action_refused
refused-Proper n e s h =
    let k = without-Proper n s h in
    record { shown = k.shown; sent = k.sent; undo = k.undo; awaited = k.awaited }

undo_click-sent :
    (o : Option Toast) (p : Panel)
    → All IsProper p.sent
    → All IsProper (undo_in o)
    → All IsProper (undo_on o p).sent
undo_click-sent none p h k = h
undo_click-sent (some t) p h k = All-append IsProper p.sent t.undo h k

undo_click-undo :
    (o : Option Toast) (p : Panel)
    → o ≡ p.toast
    → All IsProper (undo_in o)
    → All IsProper (undo_of (undo_on o p))
undo_click-undo none p e k = rw⁻¹ e tt
undo_click-undo (some t) p e k = tt

pub undo_click-Proper :
    (s : TeamPage) → IsProperPage s → IsProperPage (record s { panel = click_undo_on s.panel })
undo_click-Proper s h = record {
  shown = rw (undo_click-selected s.panel) h.shown;
  sent = undo_click-sent s.panel.toast s.panel h.sent h.undo;
  undo = undo_click-undo s.panel.toast s.panel refl h.undo;
  awaited = h.awaited;
}

pub toggle-Proper :
    (id : Text) (s : TeamPage)
    → has id (board_ids s) ≡ true
    → IsProperPage s
    → IsProperPage (toggle_select id s)
unfolding toggle_select
toggle-Proper id s q h = elim (Bool-cases (is_none_left s.panel.selected)) [
  | inl e ↦ rw e (record {
    shown = toggled-All (λ i. has i (board_ids s) ≡ true) id s.panel.selected q h.shown;
    sent = h.sent;
    undo = tt;
    awaited = h.awaited;
  })
  | inr e ↦ rw e (record {
    shown = toggled-All (λ i. has i (board_ids s) ≡ true) id s.panel.selected q h.shown;
    sent = h.sent;
    undo = h.undo;
    awaited = h.awaited;
  })
]
