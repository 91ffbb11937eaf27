-- ===== src/Tags/Laws.antt =====
-- What a normalised tag is like.
use task_man.Prelude.{ℕ, ◌≤◌, ◌≡◌, ◌⊎◌, refl, arith, true, false, [], ◌∷◌, any_of, inl, inr}
use task_man.Text.{Text, is_empty, lower_unit, to_lower_case, trim}
use task_man.Text.Laws.{NoSpace, trim-NoSpace}
use task_man.Tags.{ok, max_tag_len, is_forbidden, code_points, normalize_tag}

lower_unit_idem : (c : ℕ) → lower_unit (lower_unit c) ≡ lower_unit c
unfolding lower_unit
lower_unit_idem c = ground arith

pub to_lower_case_idem : (s : Text) → to_lower_case (to_lower_case s) ≡ to_lower_case s
unfolding to_lower_case
to_lower_case_idem [] = refl
to_lower_case_idem (c ∷ s) = cc (lower_unit_idem c, to_lower_case_idem s)

allowed-NoSpace : (s : Text) → any_of is_forbidden s ≡ false → NoSpace s
unfolding is_forbidden
allowed-NoSpace [] h = tt
allowed-NoSpace (c ∷ s) h = (ground arith, allowed-NoSpace s (ground arith))

-- A tag that the server accepts: lower case, nothing forbidden in it, and at most 30 characters.
pub record IsNormal (t : Text) : Type 0 where
  pub lower : to_lower_case t ≡ t
  pub allowed : any_of is_forbidden t ≡ false
  pub short : code_points t ≤ max_tag_len

empty-IsNormal : (t : Text) → is_empty t ≡ true → IsNormal t
unfolding to_lower_case code_points
empty-IsNormal [] h = record { lower = refl; allowed = refl; short = omega arith }
empty-IsNormal (c ∷ t) h = cc

ok_cases :
    (raw t : Text)
    → normalize_tag raw ≡ ok t
    → (t ≡ to_lower_case (trim raw))
      × ((is_empty t ≡ true) ⊎ ((any_of is_forbidden t ≡ false) × (code_points t ≤ max_tag_len)))
unfolding normalize_tag
ok_cases raw t h = ground arith

-- An accepted tag is the text in lower case with the white space at its ends taken off, and is
-- fit for the server; the empty one is accepted too.
pub normalize_tag-IsNormal :
    (raw t : Text) → normalize_tag raw ≡ ok t → (t ≡ to_lower_case (trim raw)) × IsNormal t
normalize_tag-IsNormal raw t h =
    let (e, passed) = ok_cases raw t h in
    (
      e,
      elim passed [
        | inl empty ↦ empty-IsNormal t empty
        | inr (allowed, short) ↦ record {
          lower = rw e (to_lower_case_idem (trim raw));
          allowed = allowed;
          short = short;
        }
      ],
    )

-- A normal tag is accepted as it is.
pub normalize_tag-of_IsNormal : (t : Text) → IsNormal t → normalize_tag t ≡ ok t
unfolding normalize_tag
normalize_tag-of_IsNormal t n =
    rw (trim-NoSpace t (allowed-NoSpace t n.allowed), n.lower, n.allowed) (ground arith)

-- Normalising an accepted tag a second time changes nothing.
pub normalize_tag_idempotent : (raw t : Text) → normalize_tag raw ≡ ok t → normalize_tag t ≡ ok t
normalize_tag_idempotent raw t h = normalize_tag-of_IsNormal t (normalize_tag-IsNormal raw t h).1
