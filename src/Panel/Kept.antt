-- ===== src/Panel/Kept.antt =====
-- What an answer to `reload`, and a click on Undo, leave of the selection.
use task_man.Prelude.{
  ◌≡◌, refl, sym, ◌∙◌, arith, true, List, [], ◌∷◌, map, any_of, keep_if, All, All-weaken,
}
use task_man.Text.{Text, text_eq}
use task_man.Api.Types.{TaskView}
use task_man.Picks.{has}
use task_man.Picks.Chosen.{keep_if-holds}
use task_man.Panel.{Panel, click_undo_on}

any-has :
    (id : Text) (ts : List TaskView)
    → any_of (λ t. text_eq t.id id) ts ≡ has id (map (λ t. t.id) ts)
any-has id [] = refl
any-has id (t ∷ ts) = ground (arith, any-has id ts)

-- What the new tasks keep of the selection is among them.
pub loaded-All :
    (ts : List TaskView) (ids : List Text)
    → All
        (λ id. has id (map (λ t. t.id) ts) ≡ true)
        (keep_if (λ id. any_of (λ t. text_eq t.id id) ts) ids)
loaded-All ts ids =
    All-weaken (λ id. any_of (λ t. text_eq t.id id) ts ≡ true)
      (λ id. has id (map (λ t. t.id) ts) ≡ true) (λ id e. sym (any-has id ts) ∙ e)
      (keep_if (λ id. any_of (λ t. text_eq t.id id) ts) ids)
      (keep_if-holds (λ id. any_of (λ t. text_eq t.id id) ts) ids)

pub undo_click-selected : (p : Panel) → (click_undo_on p).selected ≡ p.selected
undo_click-selected p = ground arith
