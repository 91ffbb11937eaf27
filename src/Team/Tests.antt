-- ===== src/Team/Tests.antt =====
-- A run of the page of a team, and the witnesses of its theorems.
use task_man.Prelude.{◌%◌, ◌≡◌, refl, Bool, true, [], ◌∷◌, map, some, length, keep_if}
use task_man.Text.{lit, text_run}
use task_man.Samples.{team_row, late_row, sam, sample_board}
use task_man.Api.Types.{TaskView, MemberTasks}
use task_man.Picks.{has, toggled}
use task_man.Composer.Draft.{resolve_assignee_name}
use task_man.Team.{all_tasks, team_task, initials, first_name, resolve_assignee}
use task_man.Team.Order.{by_due}
use task_man.Team.Order.Laws.{IsInOrder, ties, by_due-sorts}
use task_man.Team.Tone.{tone_index, exact_hash, tone_index-exact_hash}
use task_man.Team.Shown.{resolve_assignee-resolve_assignee_name}
use task_man.Team.Page.{TeamPage, opened_page, board_loaded, toggle_select}
use task_man.Team.Events.{step, board_answer, click_row}
use task_man.Team.Kept.{IsProperPage, board_ids}
use task_man.Team.Steps.{start, next, Reach-IsProperPage}

run : Unit {0}
unfolding text_run toggled all_tasks team_task board_loaded toggle_select initials first_name
    resolve_assignee
run = tt

abbrev loaded_page : TeamPage
loaded_page = step (board_answer sample_board) (opened_page (lit "t1") [])

abbrev chosen_page : TeamPage
chosen_page = step (click_row (lit "b")) loaded_page

-- Two letters, a first word, and a prefix that only one member has.
names_test :
    (initials sam.name ≡ lit "SL")
    × (first_name sam.name ≡ lit "Sam")
    × (resolve_assignee (some (lit "sa")) (some sample_board) ≡ some (lit "m1"))
unfolding run
names_test = (refl, refl, refl)

row_offered : has (lit "b") (board_ids loaded_page) ≡ true
unfolding run
row_offered = refl

Reach-IsProperPage_example : IsProperPage chosen_page
Reach-IsProperPage_example = Reach-IsProperPage (
    next (next (start (lit "t1") []) (board_answer sample_board) tt) (click_row (lit "b"))
      row_offered)

tone_index-exact_hash_example : tone_index (lit "m1") ≡ exact_hash 0 (lit "m1") % 4
tone_index-exact_hash_example = tone_index-exact_hash (lit "m1")

by_due-sorts_example :
    IsInOrder (by_due (team_row ∷ late_row ∷ []))
    × ((p : TaskView → Bool)
        → length (keep_if p (by_due (team_row ∷ late_row ∷ [])))
          ≡ length (keep_if p (team_row ∷ late_row ∷ [])))
    × ((x : TaskView)
        → keep_if (ties x) (by_due (team_row ∷ late_row ∷ []))
          ≡ keep_if (ties x) (team_row ∷ late_row ∷ []))
by_due-sorts_example = by_due-sorts (team_row ∷ late_row ∷ [])

resolve_assignee-resolve_assignee_name_example :
    resolve_assignee (some (lit "sa")) (some sample_board)
    ≡ resolve_assignee_name
        (some (lit "sa"))
        (map (λ (m : MemberTasks). m.member) sample_board.members)
resolve_assignee-resolve_assignee_name_example =
    resolve_assignee-resolve_assignee_name (some (lit "sa")) sample_board
