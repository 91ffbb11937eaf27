-- ===== src/Backlog/Tests.antt =====
-- A run of the backlog view, and the witnesses of its theorems.
use task_man.Prelude.{◌≡◌, refl, true, [], ◌∷◌, none, some, length, All}
use task_man.Text.{lit}
use task_man.Samples.{parked_row, team_row}
use task_man.Backlog.{Backlog, AssignInput, groups, next_status}
use task_man.Backlog.Events.{fresh, step, load_answer}
use task_man.Backlog.Groups.{count_if, grouped_tasks, IsGroup, groups-partition}

abbrev parked_view : Backlog
parked_view = step (load_answer (parked_row ∷ [])) (fresh [])

abbrev to_core : AssignInput
to_core = record { team_id = lit "t1"; assignee_id = none; due_date = some (lit "2026-07-09") }

-- A low priority and a high one make two groups.
groups_test : length (groups (team_row ∷ parked_row ∷ [])) ≡ 2
unfolding groups task_man.Backlog.prio_key
groups_test = refl

groups-partition_example :
    (count_if (λ t. true) (grouped_tasks (groups (team_row ∷ parked_row ∷ [])))
      ≡ count_if (λ t. true) (team_row ∷ parked_row ∷ []))
    × All IsGroup (groups (team_row ∷ parked_row ∷ []))
groups-partition_example = groups-partition (λ t. true) (team_row ∷ parked_row ∷ [])
