-- ===== src/Attention/Found.antt =====
-- The tasks that a bulk action looks up are all there.
use task_man.Prelude.{
  ℕ, ◌≡◌, inl, inr, refl, arith, Bool, true, List, [], ◌∷◌, map, Option, none, some, is_some, All,
  Bool-cases,
}
use task_man.Text.{Text, text_eq}
use task_man.Period.{LabelStyle}
use task_man.Api.Types.{TaskView}
use task_man.Attention.Selection.{has, Attention, map_get, tasks_of, task_by_id, all_ids}
use task_man.Attention.Bulk.{all_in, run_reschedule}
use task_man.Attention.Consistent.{Reach, Reach-IsConsistent}

map_get-some :
    (id : Text) (ts : List TaskView) (t : TaskView) → is_some (map_get id ts (some t)) ≡ true
map_get-some id [] t = refl
map_get-some id (u ∷ ts) t = elim (Bool-cases (text_eq u.id id)) [
  | inl e ↦ rw e (map_get-some id ts u)
  | inr e ↦ rw e (map_get-some id ts t)
]

map_get-has :
    (id : Text) (ts : List TaskView)
    → has id (map (λ t. t.id) ts) ≡ true
    → is_some (map_get id ts none) ≡ true
map_get-has id [] h = ground (arith, h)
map_get-has id (u ∷ ts) h = elim (Bool-cases (text_eq u.id id)) [
  | inl e ↦ rw e (map_get-some id ts u)
  | inr e ↦ rw e (map_get-has id ts (ground (arith, h, e)))
]

all_in-some :
    (get : Text → Option TaskView) (ids : List Text)
    → All (λ id. is_some (get id) ≡ true) ids
    → is_some (all_in get ids) ≡ true
all_in-some get [] h = refl
all_in-some get (id ∷ ids) (q, h) = ground (arith, q, all_in-some get ids h)

found-All :
    (s : Attention) (ids : List Text)
    → All (λ id. has id (all_ids s) ≡ true) ids
    → All (λ id. is_some (task_by_id s id) ≡ true) ids
unfolding task_by_id
found-All s [] h = tt
found-All s (id ∷ ids) (q, h) = (map_get-has id (tasks_of s.data_shown) q, found-All s ids h)

-- In every state that the view reaches, rescheduling finds every selected task, so it never throws.
pub Reach-run_reschedule :
    (locale : LabelStyle → ℕ → Text) (is_admin : Bool) {s : Attention}
    → Reach locale is_admin s
    → is_some (run_reschedule s) ≡ true
unfolding run_reschedule
Reach-run_reschedule locale is_admin {s} r = ground (
  arith,
  all_in-some (task_by_id s) s.selected
      (found-All s s.selected (Reach-IsConsistent locale is_admin r).shown),
)
