-- ===== src/Picks.antt =====
-- Sets of identifiers in the order of insertion, as the views keep the selected tasks in them.
pub mod Chosen
use task_man.Prelude.{
  Bool, true, false, not, List, [], ◌∷◌, ◌++◌, if◌then◌else◌, any_of, all_of, keep_if,
}
use task_man.Text.{Text, text_eq}

-- A set of identifiers, in the order of insertion.
abbrev pub has : Text → List Text → Bool
has id ids = any_of (λ x. text_eq x id) ids

abbrev pub set_add : Text → List Text → List Text
set_add id ids = if has id ids then ids else ids ++ id ∷ []

abbrev pub set_delete : Text → List Text → List Text
set_delete id ids = keep_if (λ x. not (text_eq x id)) ids

abbrev pub add_all : List Text → List Text → List Text
add_all [] set = set
add_all (id ∷ ids) set = add_all ids (set_add id set)

abbrev pub delete_all : List Text → List Text → List Text
delete_all [] set = set
delete_all (id ∷ ids) set = delete_all ids (set_delete id set)

abbrev pub is_none_left : List Text → Bool
is_none_left [] = true
is_none_left (id ∷ ids) = false

-- What a row's checkbox does, and a section's.
unfoldable pub toggled : Text → List Text → List Text
toggled id set = if has id set then set_delete id set else set_add id set

unfoldable pub section_toggled : List Text → List Text → List Text
section_toggled ids set =
    if all_of (λ id. has id set) ids then delete_all ids set else add_all ids set
