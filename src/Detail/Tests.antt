-- ===== src/Detail/Tests.antt =====
-- A run of the panel of a task, and the witnesses of its theorems.
use task_man.Prelude.{◌≡◌, refl, inl, true, [], ◌∷◌, none, some}
use task_man.Text.{lit, text_run}
use task_man.Period.{Now}
use task_man.Samples.{team_row}
use task_man.Api.Types.{Recurrence, RecurrenceFreq}
use task_man.Detail.{plain, toggled_days}
use task_man.Detail.Edits.{IsToggled, toggled_days-IsToggled}
use task_man.Detail.TagEditor
use task_man.Detail.TagEditor.{
  TagEditor, empty_editor, save, is_fresh, fresh_tags, add_pending, type_draft, press, enter,
  save_answered, answered,
}
use task_man.Detail.TagSaves.{IsSingle, Reach-IsSingle}
use task_man.Detail.Panel.{DetailTask, opened_panel}
use task_man.Detail.Steps.{step, load_answer, start, next, IsCurrent}
use task_man.Detail.Kept.{Reach-IsCurrent}

abbrev on_mondays : Recurrence
on_mondays = record (plain RecurrenceFreq.weekdays none) { weekdays = some (1 ∷ 3 ∷ []) }

-- A day comes in at its place, and the last day stays.
toggled_test :
    (toggled_days 2 (1 ∷ 3 ∷ []) ≡ some (1 ∷ 2 ∷ 3 ∷ [])) × (toggled_days 3 (3 ∷ []) ≡ none)
unfolding toggled_days
toggled_test = (refl, refl)

toggled_days-IsToggled_example : IsToggled 2 (1 ∷ 3 ∷ []) (toggled_days 2 (1 ∷ 3 ∷ []))
toggled_days-IsToggled_example = toggled_days-IsToggled 2 (1 ∷ 3 ∷ [])

abbrev july_eighth : Now
july_eighth = record { full_year = 2026; month = 6; date = 8 }

abbrev shown_task : DetailTask
shown_task = record { task = team_row; children = [] }

Reach-IsCurrent_example :
    IsCurrent (step (load_answer 0 shown_task) (opened_panel july_eighth (lit "b")))
Reach-IsCurrent_example =
    Reach-IsCurrent july_eighth
      (next (start (lit "b")) (load_answer 0 shown_task) (inl (refl, refl)))

-- Two tags are typed to one that is there: it is not sent again.
editor_run : Unit {0}
unfolding text_run save is_fresh fresh_tags add_pending save_answered
editor_run = tt

abbrev saving_editor : TagEditor
saving_editor =
    TagEditor.step (press (lit "home" ∷ []) enter)
      (TagEditor.step (type_draft (lit "Urgent, home")) empty_editor)

saved_test : saving_editor.sent ≡ (lit "home" ∷ lit "urgent" ∷ []) ∷ []
unfolding editor_run
saved_test = refl

editor-busy : saving_editor.busy ≡ true
unfolding editor_run
editor-busy = refl

Reach-IsSingle_example : IsSingle 1 (save_answered saving_editor)
Reach-IsSingle_example = Reach-IsSingle (
    answered
      (TagEditor.next (TagEditor.next TagEditor.start (type_draft (lit "Urgent, home")))
        (press (lit "home" ∷ []) enter))
      editor-busy)
