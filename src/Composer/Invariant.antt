-- ===== src/Composer/Invariant.antt =====
-- What holds of the composer in every state that events lead to.
pub mod Steps
use task_man.Prelude.{
  ℕ, zero, suc, ◌+◌, ◌≤◌, ◌<◌, ◌≡◌, ◌≢◌, ◌⊎◌, refl, arith, Bool, true, false, not, List, [], ◌∷◌,
  Option, none, some, if◌then◌else◌, All, length, Bool-cases, inl, inr, ltb, ◌==◌, keep_if,
}
use task_man.Text.{Text}
use task_man.Period.{Now}
use task_man.Api.Types.{Priority, RecurrenceFreq}
use task_man.QuickAdd.Fields.{HasImpliedDays}
use task_man.Composer.Draft.{
  Props, PopoverName, RepeatDraft, Pending, fast, from_draft, card, Composer, fresh, one_if,
  clear_draft, expand_with, expand, collapse, flash_created, merge_repeat,
}
use task_man.Composer.Create.{
  submit, fast_create, create_from_draft, create, created, settle_one, settle,
}
use task_man.Composer.Events.{
  Event, Key, enter, escape, other_key, Zone, no_element, bar_button, pill, in_card, outside,
  tog_pop, close_or_collapse, on_doc_mouse_down, on_collapsed_key_down, on_card_key_down, preset_of,
  map_repeat, insert_day, day_set, has_day, toggle_day, on_bar, on_card, step, Reach, start, next,
  type_title, type_notes, collapsed_key, card_key, mouse_down, expand_click, close_click,
  create_click, create_more_click, pill_click, pick_assignee, pick_due, pick_today, pick_priority,
  pick_preset, type_interval, click_day, no_repeat, repeat_done, view_changed, timer_fired,
  answered,
}

-- The repeat that the card shows could be sent as it is.
abbrev pub GoodRepeat : Option RepeatDraft → Type 0
GoodRepeat none = Unit
GoodRepeat (some r) = (1 ≤ r.interval) × (r.weekdays ≢ [])

pub record IsSound (s : Composer) : Type 0 where
  pub busy : s.creating ≡ s.in_flight
  pub one_call : length s.pending ≡ one_if s.in_flight
  pub no_popover : s.expanded ≡ false → s.pop ≡ none
  pub repeat_ok : GoodRepeat s.repeat

insert_day-ne-nil : (d : ℕ) (ds : List ℕ) → insert_day d ds ≢ []
unfolding insert_day
insert_day-ne-nil d [] = cc
insert_day-ne-nil d (e ∷ es) = ground arith

-- The days after d increase from it.
abbrev Above : ℕ → List ℕ → Type 0
Above d [] = Unit
Above d (e ∷ es) = (d < e) × Above e es

abbrev Increasing : List ℕ → Type 0
Increasing [] = Unit
Increasing (d ∷ ds) = Above d ds

insert_day-Above : (a d : ℕ) (ds : List ℕ) → a < d → Above a ds → Above a (insert_day d ds)
unfolding insert_day
insert_day-Above a d [] h t = (h, tt)
insert_day-Above a d (e ∷ es) h (p, t) = ground (arith, insert_day-Above e d es)

insert_day-Increasing : (d : ℕ) (ds : List ℕ) → Increasing ds → Increasing (insert_day d ds)
unfolding insert_day
insert_day-Increasing d [] t = tt
insert_day-Increasing d (e ∷ es) t = ground (arith, insert_day-Above e d es)

day_set-Increasing : (ds : List ℕ) → Increasing (day_set ds)
unfolding day_set
day_set-Increasing [] = tt
day_set-Increasing (d ∷ ds) = insert_day-Increasing d (day_set ds) (day_set-Increasing ds)

-- Taking one day out of two or more leaves a day.
without-ne-nil :
    (d : ℕ) (ds : List ℕ)
    → Increasing ds
    → has_day d ds ≡ true
    → length ds ≢ 1
    → keep_if (λ e. not (e == d)) ds ≢ []
unfolding has_day
without-ne-nil d [] t e n = cc
without-ne-nil d (a ∷ []) t e n = absurd (n refl)
without-ne-nil d (a ∷ b ∷ ds) (lt, t) e n = ground arith

toggle_day-ne-nil : (d : ℕ) (r : RepeatDraft) → r.weekdays ≢ [] → (toggle_day d r).weekdays ≢ []
unfolding toggle_day
toggle_day-ne-nil d r h = ground (
  arith,
  insert_day-ne-nil d (day_set r.weekdays),
  without-ne-nil d (day_set r.weekdays) (day_set-Increasing r.weekdays),
)

toggle_day-interval : (d : ℕ) (r : RepeatDraft) → (toggle_day d r).interval ≡ r.interval
unfolding toggle_day
toggle_day-interval d r = ground arith

preset_of-Good :
    (f : RecurrenceFreq) (r : Option RepeatDraft) → GoodRepeat r → GoodRepeat (some (preset_of f r))
preset_of-Good f r h = ground arith

toggle_day-Good :
    (d : ℕ) (r : Option RepeatDraft) → GoodRepeat r → GoodRepeat (map_repeat (toggle_day d) r)
toggle_day-Good d none h = tt
toggle_day-Good d (some r) (i, w) = (rw (toggle_day-interval d r) i, toggle_day-ne-nil d r w)
