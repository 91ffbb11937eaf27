-- ===== src/Composer/Events.antt =====
-- TaskComposer.tsx: the event handlers, and runs of the component as sequences of events.
use task_man.Prelude.{
  ℕ, Bool, true, false, not, ◌&&◌, ◌||◌, List, [], ◌∷◌, Option, none, some, if◌then◌else◌, ltb,
  ◌==◌, keep_if, length,
}
use task_man.Text.{Text}
use task_man.Period.{Now, today}
use task_man.Api.Types.{Priority, RecurrenceFreq}
use task_man.QuickAdd.Words.{mon_fri}
use task_man.Composer.Draft.{
  Props, is_personal, PopoverName, assignee, due, priority, repeat, RepeatDraft, Composer, fresh,
  days_or_default, draft_field_count, clear_draft, expand, collapse, is_present,
}
use task_man.Composer.Create.{fast_create, create_from_draft, create, settle}

-- Where a mouse button goes down: not on an element, on the expand button or the draft chip of the
-- collapsed bar, on a pill or in a popover, elsewhere in the card, or outside it.
pub data Zone : Type 0 where
  no_element bar_button pill in_card outside : Zone

pub data Key : Type 0 where
  enter escape other_key : Key

abbrev pub same_popover : PopoverName → PopoverName → Bool
same_popover assignee assignee = true
same_popover due due = true
same_popover priority priority = true
same_popover repeat repeat = true
same_popover _ _ = false

abbrev pub toggled : PopoverName → Option PopoverName → Option PopoverName
toggled name none = some name
toggled name (some p) = if same_popover p name then none else some name

unfoldable pub tog_pop : PopoverName → Composer → Composer
tog_pop name s = record s { pop = toggled name s.pop }

unfoldable pub close_or_collapse : Composer → Composer
close_or_collapse s = if is_present s.pop then record s { pop = none } else collapse s

-- `onDocMouseDown`, which is only there while the card is expanded.
unfoldable pub on_doc_mouse_down : Zone → Composer → Composer
on_doc_mouse_down no_element s = s
on_doc_mouse_down bar_button s = s
on_doc_mouse_down pill s = s
on_doc_mouse_down in_card s = if is_present s.pop then record s { pop = none } else s
on_doc_mouse_down outside s = close_or_collapse s

unfoldable pub on_collapsed_key_down : Now → Props → Key → Bool → Composer → Composer
on_collapsed_key_down now props enter false s =
    if ltb 0 (draft_field_count props s)
    then create_from_draft now props s
    else fast_create now props s
on_collapsed_key_down now props enter true s = expand now props s
on_collapsed_key_down now props escape shift s = clear_draft s
on_collapsed_key_down now props other_key shift s = s

-- `meta` is the Meta or the Ctrl key, `in_title` that the event's target is the title's input.
unfoldable pub on_card_key_down : Now → Props → Key → Bool → Bool → Bool → Composer → Composer
on_card_key_down now props enter meta shift in_title s =
    if meta
    then create now props s
    else if not shift && not (is_present s.pop) && in_title
    then create now props s
    else s
on_card_key_down now props escape meta shift in_title s = close_or_collapse s
on_card_key_down now props other_key meta shift in_title s = s

-- The controls of the repeat popover.
abbrev pub preset_of : RecurrenceFreq → Option RepeatDraft → RepeatDraft
preset_of f none = record { freq = f; interval = 1; weekdays = mon_fri }
preset_of RecurrenceFreq.weekdays (some r) = record {
  freq = RecurrenceFreq.weekdays;
  interval = r.interval;
  weekdays = days_or_default r.weekdays;
}
preset_of f (some r) = record { freq = f; interval = r.interval; weekdays = r.weekdays }

-- `Math.max(1, parseInt(value, 10) || 1)`: `none` is a value that is no number, and negative ones
-- are given as 0.
abbrev pub interval_of : Option ℕ → ℕ
interval_of none = 1
interval_of (some n) = if ltb n 1 then 1 else n

-- `Array.from(new Set(days)).sort(…)`: increasing, each day once.
unfoldable pub insert_day : ℕ → List ℕ → List ℕ
insert_day d [] = d ∷ []
insert_day d (e ∷ es) =
    let later = e ∷ insert_day d es in
    if ltb d e then d ∷ e ∷ es else if d == e then e ∷ es else later

unfoldable pub day_set : List ℕ → List ℕ
day_set [] = []
day_set (d ∷ ds) = insert_day d (day_set ds)

unfoldable pub has_day : ℕ → List ℕ → Bool
has_day d [] = false
has_day d (e ∷ es) = e == d || has_day d es

unfoldable pub toggle_day : ℕ → RepeatDraft → RepeatDraft
toggle_day day r =
    let days = day_set r.weekdays in
    if has_day day days
    then (if length days == 1
        then r
        else record r { weekdays = keep_if (λ e. not (e == day)) days })
    else record r { weekdays = insert_day day days }

abbrev pub map_repeat : (RepeatDraft → RepeatDraft) → Option RepeatDraft → Option RepeatDraft
map_repeat f none = none
map_repeat f (some r) = some (f r)

pub data Event : Type 0 where
  type_title type_notes : Text → Event
  collapsed_key : Key → Bool → Event
  card_key : Key → (meta shift in_title : Bool) → Event
  mouse_down : Zone → Event
  expand_click close_click create_click create_more_click : Event
  pill_click : PopoverName → Event
  pick_assignee : Option Text → Event
  pick_due : Text → Event
  pick_today : Event
  pick_priority : Priority → Event
  pick_preset : RecurrenceFreq → Event
  type_interval : Option ℕ → Event
  click_day : ℕ → Event
  no_repeat repeat_done : Event
  view_changed timer_fired : Event
  answered : Option Text → Event

-- The handlers of the collapsed bar.
unfoldable pub on_bar : Now → Props → Event → Composer → Composer
on_bar now props (type_title t) s = record s { title = t }
on_bar now props (collapsed_key k shift) s = on_collapsed_key_down now props k shift s
on_bar now props expand_click s = expand now props s
on_bar now props _ s = s

-- Those of the expanded card.
unfoldable pub on_card : Now → Props → Event → Composer → Composer
on_card now props (type_title t) s = record s { title = t }
on_card now props (type_notes t) s = record s { notes = t }
on_card now props (card_key k meta shift in_title) s =
    on_card_key_down now props k meta shift in_title s
on_card now props (mouse_down z) s = on_doc_mouse_down z s
on_card now props close_click s = collapse s
on_card now props create_click s = create now props s
on_card now props create_more_click s = record s { create_more = not s.create_more }
on_card now props (pill_click name) s = tog_pop name s
on_card now props (pick_assignee a) s = record s { assignee_id = a; pop = none }
on_card now props (pick_due d) s = record s { due = d; pop = none }
on_card now props pick_today s = record s { due = today now; pop = none }
on_card now props (pick_priority p) s = record s { priority = p; pop = none }
on_card now props (pick_preset f) s = record s { repeat = some (preset_of f s.repeat) }
on_card now props (type_interval n) s = record s {
  repeat = map_repeat (λ r. record r { interval = interval_of n }) s.repeat;
}
on_card now props (click_day d) s = record s { repeat = map_repeat (toggle_day d) s.repeat }
on_card now props no_repeat s = record s { repeat = none; pop = none }
on_card now props repeat_done s = record s { pop = none }
on_card now props _ s = s

-- What happens whichever is shown: a change of the personal view (the effect on `viewHorizon`), the
-- timer of `flashCreated`, an answer of the server; or an event of the part that is shown.
unfoldable pub step : Now → Props → Event → Composer → Composer
step now props view_changed s =
    if is_personal props then record s { horizon_override = none } else s
step now props timer_fired s =
    if s.timer then record s { just_created = false; timer = false } else s
step now props (answered answer) s = settle answer s
step now props e s = if s.expanded then on_card now props e s else on_bar now props e s

-- The states that events lead to. The time and the properties may change between events.
pub data Reach : Composer → Type 0 where
  start : Reach fresh
  next :
      {s : Composer}
      → Reach s
      → (now : Now) (props : Props) (e : Event) → Reach (step now props e s)
