-- ===== src/Picks/Chosen.antt =====
-- What holds of every identifier of a selection goes on to hold of it as the selection changes.
use task_man.Prelude.{
  ◌≡◌, inl, inr, refl, arith, Bool, true, not, List, [], ◌∷◌, all_of, keep_if, All, All-append,
  Bool-cases,
}
use task_man.Text.{Text, text_eq}
use task_man.Text.Laws.{text_eq_refl}
use task_man.Picks.{has, set_add, set_delete, add_all, delete_all, toggled, section_toggled}

module _ (P : Text → Type 0) where
  keep_if-All : (p : Text → Bool) (ids : List Text) → All P ids → All P (keep_if p ids)
  keep_if-All p [] h = tt
  keep_if-All p (id ∷ ids) (q, h) = ground (arith, keep_if-All p ids h)

  set_add-All : (id : Text) (set : List Text) → P id → All P set → All P (set_add id set)
  set_add-All id set q h = elim (Bool-cases (has id set)) [
    | inl e ↦ rw e h
    | inr e ↦ rw e (All-append P set (id ∷ []) h (q, tt))
  ]

  pub add_all-All : (ids set : List Text) → All P ids → All P set → All P (add_all ids set)
  add_all-All [] set g h = h
  add_all-All (id ∷ ids) set (q, g) h = add_all-All ids (set_add id set) g (set_add-All id set q h)

  delete_all-All : (ids set : List Text) → All P set → All P (delete_all ids set)
  delete_all-All [] set h = h
  delete_all-All (id ∷ ids) set h =
      delete_all-All ids (set_delete id set) (keep_if-All (λ x. not (text_eq x id)) set h)

  pub toggled-All : (id : Text) (set : List Text) → P id → All P set → All P (toggled id set)
  unfolding toggled
  toggled-All id set q h = elim (Bool-cases (has id set)) [
    | inl e ↦ rw e (keep_if-All (λ x. not (text_eq x id)) set h)
    | inr e ↦ rw e (All-append P set (id ∷ []) h (q, tt))
  ]

  pub section_toggled-All :
      (ids set : List Text) → All P ids → All P set → All P (section_toggled ids set)
  unfolding section_toggled
  section_toggled-All ids set g h = elim (Bool-cases (all_of (λ id. has id set) ids)) [
    | inl e ↦ rw e (delete_all-All ids set h)
    | inr e ↦ rw e (add_all-All ids set g h)
  ]

pub keep_if-holds : (p : Text → Bool) (ids : List Text) → All (λ id. p id ≡ true) (keep_if p ids)
keep_if-holds p [] = tt
keep_if-holds p (id ∷ ids) = elim (Bool-cases (p id)) [
  | inl e ↦ rw e (e, keep_if-holds p ids)
  | inr e ↦ rw e (keep_if-holds p ids)
]

has-weaken : (id x : Text) (ids : List Text) → has id ids ≡ true → has id (x ∷ ids) ≡ true
has-weaken id x ids h = ground (arith, h)

All-weaken :
    (x : Text) (ids js : List Text)
    → All (λ id. has id ids ≡ true) js
    → All (λ id. has id (x ∷ ids) ≡ true) js
All-weaken x ids [] h = tt
All-weaken x ids (j ∷ js) (q, h) = (has-weaken j x ids q, All-weaken x ids js h)

pub ids-All : (ids : List Text) → All (λ id. has id ids ≡ true) ids
ids-All [] = tt
ids-All (id ∷ ids) = (rw (text_eq_refl id) refl, All-weaken id ids ids (ids-All ids))
