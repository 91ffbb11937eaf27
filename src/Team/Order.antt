-- ===== src/Team/Order.antt =====
-- `compareDue` of ui/src/views/TeamPage.tsx, and the lists that it sorts: the tasks by due date, those
-- with none after them by their creation, the closed ones last.
pub mod Laws
use task_man.Prelude.{
  ℕ, Bool, true, false, not, ◌&&◌, ◌||◌, List, [], ◌∷◌, Option, none, some, if◌then◌else◌, get_or,
}
use task_man.Text.{Text, text_lt, is_empty}
use task_man.Api.Types.{TaskView}
use task_man.Backlog.{is_completed_status}

-- A number below zero, zero, and one above.
pub data Order : Type 0 where
  before same after : Order

unfoldable pub is_open_task : TaskView → Bool
is_open_task t = not (is_completed_status t.status)

abbrev pub compare_text : Text → Text → Order
compare_text a b = if text_lt a b then before else if text_lt b a then after else same

unfoldable pub compare_due : TaskView → TaskView → Order
compare_due a b =
    let ad = get_or a.due_date [] in
    let bd = get_or b.due_date [] in
    if is_open_task a && not (is_open_task b)
    then before
    else if not (is_open_task a) && is_open_task b
    then after
    else if not (is_empty ad) && not (is_empty bd)
    then compare_text ad bd
    else if not (is_empty ad) && is_empty bd
    then before
    else if is_empty ad && not (is_empty bd)
    then after
    else compare_text a.created_at b.created_at

abbrev pub is_after : Order → Bool
is_after after = true
is_after _ = false

-- `sort(compareDue)`: a stable sort.
abbrev pub insert_due : TaskView → List TaskView → List TaskView
insert_due t [] = t ∷ []
insert_due t (u ∷ us) =
    let rest = insert_due t us in if is_after (compare_due t u) then u ∷ rest else t ∷ u ∷ us

unfoldable pub by_due : List TaskView → List TaskView
by_due [] = []
by_due (t ∷ ts) = insert_due t (by_due ts)
