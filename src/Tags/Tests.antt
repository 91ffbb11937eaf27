-- ===== src/Tags/Tests.antt =====
-- The cases of ui/test/tags.test.ts, and the theorems at concrete tags and filters.
use task_man.Prelude.{◌≡◌, refl, subst, true, none, some, [], ◌∷◌}
use task_man.Text.{lit, text_run}
use task_man.Tags.{ok, invalid, too_long, is_forbidden, code_points, normalize_tag}
use task_man.Tags.Filter.{Stored, missing, array, read_entries, read_stored, TagStore, set_selected}
use task_man.Tags.Kept.{IsFilter, read_stored-IsFilter, read_stored-set_selected}

run : Unit {0}
unfolding text_run is_forbidden code_points normalize_tag
run = tt

cases :
    (normalize_tag (lit "  Backend ") ≡ ok (lit "backend"))
    × (normalize_tag (lit "Q3-Plan_x") ≡ ok (lit "q3-plan_x"))
    × (normalize_tag (lit "   ") ≡ ok [])
    × (normalize_tag (lit "a b") ≡ invalid (lit "a b"))
    × (normalize_tag (lit "#a") ≡ invalid (lit "#a"))
    × (normalize_tag (lit "aaaaaaaaaaaaaaaaaaaaaaaaaaaaaaa")
        ≡ too_long (lit "aaaaaaaaaaaaaaaaaaaaaaaaaaaaaaa"))
    × (code_points (0xD83D ∷ 0xDE00 ∷ []) ≡ 1)
unfolding run
cases = (refl, refl, refl, refl, refl, refl, refl)

-- A stored list that was edited by hand.
abbrev edited : Stored
edited =
    array (
      some (lit " Backend") ∷ none ∷ some (lit "a b") ∷ some (lit "backend") ∷ some (lit "q3") ∷ [])

edited_test : read_stored edited ≡ lit "backend" ∷ lit "q3" ∷ []
unfolding run read_stored read_entries
edited_test = refl

read_stored-IsFilter_example : IsFilter (read_stored edited)
read_stored-IsFilter_example = read_stored-IsFilter edited

abbrev no_tags : TagStore
no_tags = record { selected = []; stored = missing }

two_kept : IsFilter (lit "backend" ∷ lit "q3" ∷ [])
two_kept = subst IsFilter edited_test (read_stored-IsFilter edited)

read_stored-set_selected_example :
    read_stored (set_selected true (lit "backend" ∷ lit "q3" ∷ []) no_tags).stored
    ≡ lit "backend" ∷ lit "q3" ∷ []
read_stored-set_selected_example =
    read_stored-set_selected (lit "backend" ∷ lit "q3" ∷ []) no_tags two_kept
