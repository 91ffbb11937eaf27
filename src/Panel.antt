-- ===== src/Panel.antt =====
-- The state that the views of the team and of the backlog keep alike: the message, the selection, the
-- toast, and the calls made so far.
pub mod Kept
use task_man.Prelude.{ℕ, suc, Bool, true, false, List, [], ◌∷◌, ◌++◌, Option, none, some}
use task_man.Text.{Text}
use task_man.Api.Requests.{Request}
use task_man.Attention.Selection.{Toast}

-- `sent` logs the calls of the server, `changes` counts those of `notifyTasksChanged`.
pub record Panel : Type 0 where
  pub error : Option Text
  pub selected : List Text
  pub toast : Option Toast
  pub sent : List Request
  pub changes : ℕ

abbrev pub empty_panel : Panel
empty_panel = record { error = none; selected = []; toast = none; sent = []; changes = 0 }

abbrev pub post : List Request → Panel → Panel
post rs p = record p { sent = p.sent ++ rs }

-- `reload`, whose request this is.
abbrev pub refresh : Request → Panel → Panel
refresh r p = post (r ∷ []) (record p { error = none })

-- `reload(); notifyTasksChanged();`
abbrev pub refresh_all : Request → Panel → Panel
refresh_all r p = let q = refresh r p in record q { changes = suc p.changes }

abbrev pub show_toast : Option Text → List Request → Panel → Panel
show_toast message undo p = record p { toast = some (record { message = message; undo = undo }) }

abbrev pub complain : Text → Panel → Panel
complain e p = record p { error = some e }

abbrev pub choose : List Text → Panel → Panel
choose ids p = record p { selected = ids }

abbrev pub hide_toast : Panel → Panel
hide_toast p = record p { toast = none }

abbrev pub undo_on : Option Toast → Panel → Panel
undo_on none p = p
undo_on (some t) p = hide_toast (post t.undo p)

-- A click on the toast's Undo: its calls, and the toast goes.
abbrev pub click_undo_on : Panel → Panel
click_undo_on p = undo_on p.toast p

abbrev pub undo_in : Option Toast → List Request
undo_in none = []
undo_in (some t) = t.undo

-- The calls that the toast's Undo would make.
abbrev pub undo_of : Panel → List Request
undo_of p = undo_in p.toast
