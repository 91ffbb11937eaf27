-- ===== src/Attention/Sets.antt =====
-- What the checkboxes of the attention view do to the selection.
use task_man.Prelude.{
  ◌≡◌, refl, sym, arith, inl, inr, false, not, ◌&&◌, ◌||◌, List, [], ◌∷◌, ◌++◌, if◌then◌else◌,
  all_of, Bool-cases,
}
use task_man.Text.{Text, text_eq}
use task_man.Text.Laws.{text_eq_iff, text_eq_refl}
use task_man.Attention.Selection.{
  has, set_add, set_delete, add_all, delete_all, Attention, all_ids, all_selected, toggled,
  section_toggled, toggle, toggle_section_all, toggle_select_all, dismiss_toast,
}

has-delete :
    (x id : Text) (set : List Text) → has x (set_delete id set) ≡ (has x set && not (text_eq id x))
has-delete x id [] = refl
has-delete x id (y ∷ set) =
    ground (arith, text_eq_iff y id, text_eq_iff y x, text_eq_iff id x, has-delete x id set)

has-append : (x id : Text) (set : List Text) → has x (set ++ id ∷ []) ≡ (has x set || text_eq id x)
has-append x id [] = ground arith
has-append x id (y ∷ set) = ground (arith, has-append x id set)

has-add : (x id : Text) (set : List Text) → has x (set_add id set) ≡ (has x set || text_eq id x)
has-add x id set = elim (Bool-cases (has id set)) [
  | inl e ↦ rw e (elim (Bool-cases (text_eq id x)) [
    | inl q ↦ rw (sym ((text_eq_iff id x).0 q)) (ground (arith, e))
    | inr q ↦ ground (arith, q)
  ])
  | inr e ↦ rw e (has-append x id set)
]

has-toggled :
    (x id : Text) (set : List Text)
    → has x (toggled id set) ≡ (if text_eq id x then not (has x set) else has x set)
unfolding toggled
has-toggled x id set = elim (Bool-cases (text_eq id x)) [
  | inl q ↦ rw (sym ((text_eq_iff id x).0 q), text_eq_refl id) (own set)
  | inr q ↦ rw q (other q)
]
  where
    own :
        (ids : List Text)
        → has id (if has id ids then set_delete id ids else set_add id ids) ≡ not (has id ids)
    own ids = elim (Bool-cases (has id ids)) [
      | inl e ↦ rw e (ground (arith, has-delete id id ids, text_eq_refl id))
      | inr e ↦ rw e (ground (arith, has-append id id ids, text_eq_refl id))
    ]

    other :
        text_eq id x ≡ false
        → has x (if has id set then set_delete id set else set_add id set) ≡ has x set
    other q = elim (Bool-cases (has id set)) [
      | inl e ↦ rw e (ground (arith, has-delete x id set, q))
      | inr e ↦ rw e (ground (arith, has-append x id set, q))
    ]

-- A checkbox that is clicked twice leaves every identifier selected or not as it was.
pub toggle_again :
    (x id : Text) (s : Attention) → has x (toggle id (toggle id s)).selected ≡ has x s.selected
unfolding toggle dismiss_toast
toggle_again x id s =
    ground (arith, has-toggled x id (toggled id s.selected), has-toggled x id s.selected)

has-add_all : (x : Text) (ids set : List Text) → has x (add_all ids set) ≡ (has x ids || has x set)
has-add_all x [] set = refl
has-add_all x (id ∷ ids) set = ground (arith, has-add_all x ids (set_add id set), has-add x id set)

has-delete_all :
    (x : Text) (ids set : List Text) → has x (delete_all ids set) ≡ (not (has x ids) && has x set)
has-delete_all x [] set = refl
has-delete_all x (id ∷ ids) set =
    ground (arith, has-delete_all x ids (set_delete id set), has-delete x id set)

-- After a click on a section's checkbox its tasks are all selected, or none is if all were before,
-- and any other task is selected or not as it was.
pub has-toggle_section_all :
    (x : Text) (ids : List Text) (s : Attention)
    → has x (toggle_section_all ids s).selected
      ≡ (if has x ids then not (all_of (λ id. has id s.selected) ids) else has x s.selected)
unfolding section_toggled
has-toggle_section_all x ids s = elim (Bool-cases (all_of (λ id. has id s.selected) ids)) [
  | inl e ↦ rw e (ground (arith, has-delete_all x ids s.selected))
  | inr e ↦ rw e (ground (arith, has-add_all x ids s.selected))
]

-- After a click on `Select all` every task shown is selected and no other; after a click on
-- `Clear selection`, which the button is when all are, none.
pub has-toggle_select_all :
    (x : Text) (s : Attention)
    → has x (toggle_select_all s).selected ≡ (not (all_selected s) && has x (all_ids s))
unfolding toggle_select_all
has-toggle_select_all x s = elim (Bool-cases (all_selected s)) [
  | inl e ↦ rw e refl
  | inr e ↦ rw e (ground (arith, has-add_all x (all_ids s) []))
]
