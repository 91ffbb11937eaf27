-- ===== src/History/Tests.antt =====
-- A run of the history, and the witnesses of its theorems.
use task_man.Prelude.{◌≡◌, arith, false, [], ◌∷◌, some}
use task_man.Text.{lit}
use task_man.Samples.{team_row, late_row}
use task_man.History.{History}
use task_man.History.Paged.{first_page, turns, turns_complete}

abbrev shown_history : History
shown_history = first_page (team_row ∷ late_row ∷ []) (lit "t1") []

turns_complete_example :
    ((turns (team_row ∷ late_row ∷ []) 1 shown_history).tasks ≡ some (team_row ∷ late_row ∷ []))
    × ((turns (team_row ∷ late_row ∷ []) 1 shown_history).has_more ≡ false)
    × ((turns (team_row ∷ late_row ∷ []) 1 shown_history).loading_more ≡ false)
turns_complete_example = turns_complete (team_row ∷ late_row ∷ []) (lit "t1") [] 1 (omega arith)
