-- ===== src/Composer/Invariant/Steps.antt =====
-- Every event keeps the composer sound.
use task_man.Prelude.{
  ◌≡◌, ◌⊎◌, refl, arith, Bool, true, false, Option, if◌then◌else◌, Bool-cases, inl, inr,
}
use task_man.Text.{Text}
use task_man.Period.{Now, today}
use task_man.Api.Types.{CreateTaskInput}
use task_man.QuickAdd.{ParsedQuickAdd, parse_quick_add}
use task_man.QuickAdd.Fields.{HasImpliedDays, recurrence-HasImpliedDays}
use task_man.Composer.Draft.{
  Props, RepeatDraft, Pending, fast, from_draft, card, Composer, clear_draft, expand_with, expand,
  collapse, flash_created, merge_repeat,
}
use task_man.Composer.Create.{
  submit, fast_input, draft_input, card_input, fast_create, create_from_draft, create, created,
  settle_one, settle,
}
use task_man.Composer.Events.{
  Event, Key, enter, escape, other_key, Zone, no_element, bar_button, pill, in_card, outside,
  tog_pop, close_or_collapse, on_doc_mouse_down, on_collapsed_key_down, on_card_key_down, on_bar,
  on_card, step, Reach, start, next, type_title, collapsed_key, card_key, mouse_down, expand_click,
  create_click, pick_preset, click_day, view_changed, timer_fired, answered,
}
use task_man.Composer.Payload.{Adds, fast_create-Adds, create_from_draft-Adds, create-Adds}
use task_man.Composer.Invariant.{GoodRepeat, IsSound, preset_of-Good, toggle_day-Good}

-- The parts of soundness that the three creating paths share.
submit-IsSound :
    (how : Pending) (input : CreateTaskInput) (s : Composer)
    → IsSound s
    → s.in_flight ≡ false
    → IsSound (submit how input s)
unfolding submit
submit-IsSound how input s h free = record {
  busy = refl;
  one_call = ground arith;
  no_popover = h.no_popover;
  repeat_ok = h.repeat_ok;
}

-- What a creating path does: nothing, or a submission when no call is in flight.
abbrev Submits : Pending → CreateTaskInput → Composer → Composer → Type 0
Submits how input s t = (t ≡ s) ⊎ ((s.in_flight ≡ false) × (t ≡ submit how input s))

Submits-IsSound :
    (how : Pending) (input : CreateTaskInput) (s t : Composer)
    → Submits how input s t
    → IsSound s
    → IsSound t
Submits-IsSound how input s t (inl e) h = rw e h
Submits-IsSound how input s t (inr (free, e)) h = rw e (submit-IsSound how input s h free)

fast_create-Submits :
    (now : Now) (props : Props) (s : Composer)
    → Submits fast
        (fast_input now props (parse_quick_add s.title (today now)))
        s
        (fast_create now props s)
unfolding fast_create
fast_create-Submits now props s = ground arith

create_from_draft-Submits :
    (now : Now) (props : Props) (s : Composer)
    → Submits from_draft
        (draft_input now props (parse_quick_add s.title (today now)) s)
        s
        (create_from_draft now props s)
unfolding create_from_draft
create_from_draft-Submits now props s = ground arith

create-Submits :
    (now : Now) (props : Props) (s : Composer)
    → Submits (card s.create_more) (card_input now props s) s (create now props s)
unfolding create
create-Submits now props s = ground arith

fast_create-IsSound :
    (now : Now) (props : Props) (s : Composer) → IsSound s → IsSound (fast_create now props s)
fast_create-IsSound now props s h = Submits-IsSound _ _ s _ (fast_create-Submits now props s) h

create_from_draft-IsSound :
    (now : Now) (props : Props) (s : Composer) → IsSound s → IsSound (create_from_draft now props s)
create_from_draft-IsSound now props s h =
    Submits-IsSound _ _ s _ (create_from_draft-Submits now props s) h

create-IsSound :
    (now : Now) (props : Props) (s : Composer) → IsSound s → IsSound (create now props s)
create-IsSound now props s h = Submits-IsSound _ _ s _ (create-Submits now props s) h

merge_repeat-Good :
    (parsed : ParsedQuickAdd) (r : Option RepeatDraft)
    → HasImpliedDays parsed.recurrence
    → GoodRepeat r
    → GoodRepeat (merge_repeat parsed.recurrence r)
unfolding merge_repeat
merge_repeat-Good parsed r h g = ground arith

expand-IsSound :
    (now : Now) (props : Props) (s : Composer) → IsSound s → IsSound (expand now props s)
unfolding expand expand_with
expand-IsSound now props s h = record {
  busy = h.busy;
  one_call = h.one_call;
  no_popover = λ e. refl;
  repeat_ok =
      merge_repeat-Good (parse_quick_add s.title (today now)) s.repeat
        (recurrence-HasImpliedDays (today now) s.title) h.repeat_ok;
}

close_or_collapse-IsSound : (s : Composer) → IsSound s → IsSound (close_or_collapse s)
unfolding close_or_collapse collapse
close_or_collapse-IsSound s h = ground arith

settle-IsSound : (answer : Option Text) (s : Composer) → IsSound s → IsSound (settle answer s)
unfolding settle settle_one created clear_draft flash_created
settle-IsSound answer s h = ground arith

on_doc_mouse_down-IsSound : (z : Zone) (s : Composer) → IsSound s → IsSound (on_doc_mouse_down z s)
unfolding on_doc_mouse_down
on_doc_mouse_down-IsSound in_card s h = ground arith
on_doc_mouse_down-IsSound outside s h = close_or_collapse-IsSound s h
on_doc_mouse_down-IsSound no_element s h = h
on_doc_mouse_down-IsSound bar_button s h = h
on_doc_mouse_down-IsSound pill s h = h

on_card_key_down-IsSound :
    (now : Now) (props : Props) (k : Key) (meta shift in_title : Bool) (s : Composer)
    → IsSound s
    → IsSound (on_card_key_down now props k meta shift in_title s)
unfolding on_card_key_down
on_card_key_down-IsSound now props enter meta shift in_title s h =
    ground (arith, create-IsSound now props s)
on_card_key_down-IsSound now props escape meta shift in_title s h = close_or_collapse-IsSound s h
on_card_key_down-IsSound now props other_key meta shift in_title s h = h

on_collapsed_key_down-IsSound :
    (now : Now) (props : Props) (k : Key) (shift : Bool) (s : Composer)
    → IsSound s
    → IsSound (on_collapsed_key_down now props k shift s)
unfolding on_collapsed_key_down
on_collapsed_key_down-IsSound now props enter false s h =
    ground (arith, create_from_draft-IsSound now props s, fast_create-IsSound now props s)
on_collapsed_key_down-IsSound now props enter true s h = expand-IsSound now props s h
on_collapsed_key_down-IsSound now props escape shift s h = unfold clear_draft in ground arith
on_collapsed_key_down-IsSound now props other_key shift s h = h

on_card-IsSound :
    (now : Now) (props : Props) (e : Event) (s : Composer)
    → s.expanded ≡ true
    → IsSound s
    → IsSound (on_card now props e s)
unfolding on_card tog_pop collapse
on_card-IsSound now props (card_key k meta shift in_title) s shown h =
    on_card_key_down-IsSound now props k meta shift in_title s h
on_card-IsSound now props (mouse_down z) s shown h = on_doc_mouse_down-IsSound z s h
on_card-IsSound now props create_click s shown h = create-IsSound now props s h
on_card-IsSound now props (pick_preset f) s shown h = ground (arith, preset_of-Good f s.repeat)
on_card-IsSound now props (click_day d) s shown h = ground (arith, toggle_day-Good d s.repeat)
on_card-IsSound now props _ s shown h = ground arith

on_bar-IsSound :
    (now : Now) (props : Props) (e : Event) (s : Composer)
    → IsSound s
    → IsSound (on_bar now props e s)
unfolding on_bar
on_bar-IsSound now props (type_title t) s h = ground arith
on_bar-IsSound now props (collapsed_key k shift) s h =
    on_collapsed_key_down-IsSound now props k shift s h
on_bar-IsSound now props expand_click s h = expand-IsSound now props s h
on_bar-IsSound now props _ s h = h

shown-IsSound :
    (now : Now) (props : Props) (e : Event) (s : Composer)
    → IsSound s
    → IsSound (if s.expanded then on_card now props e s else on_bar now props e s)
shown-IsSound now props e s h = elim (Bool-cases s.expanded) [
  | inl shown ↦ ground (arith, on_card-IsSound now props e s shown h)
  | inr hidden ↦ ground (arith, on_bar-IsSound now props e s h)
]

step-IsSound :
    (now : Now) (props : Props) (e : Event) (s : Composer)
    → IsSound s
    → IsSound (step now props e s)
unfolding step
step-IsSound now props view_changed s h = ground arith
step-IsSound now props timer_fired s h = ground arith
step-IsSound now props (answered a) s h = settle-IsSound a s h
step-IsSound now props e s h = shown-IsSound now props e s h

if_Adds :
    (now : Now) (props : Props) (b : Bool) (s t u : Composer)
    → Adds now props s.sent t.sent
    → Adds now props s.sent u.sent
    → Adds now props s.sent (if b then t else u).sent
if_Adds now props true s t u h k = h
if_Adds now props false s t u h k = k

settle-sent : (answer : Option Text) (s : Composer) → (settle answer s).sent ≡ s.sent
unfolding settle settle_one created clear_draft flash_created
settle-sent answer s = ground arith

on_doc_mouse_down-sent : (z : Zone) (s : Composer) → (on_doc_mouse_down z s).sent ≡ s.sent
unfolding on_doc_mouse_down close_or_collapse collapse
on_doc_mouse_down-sent z s = ground arith

on_card_key_down-Adds :
    (now : Now) (props : Props) (k : Key) (meta shift in_title : Bool) (s : Composer)
    → Adds now props s.sent (on_card_key_down now props k meta shift in_title s).sent
unfolding on_card_key_down
on_card_key_down-Adds now props enter meta shift in_title s =
    if_Adds now props meta s (create now props s) _ (create-Adds now props s)
      (if_Adds now props _ s (create now props s) s (create-Adds now props s) (inl refl))
on_card_key_down-Adds now props escape meta shift in_title s =
    inl (unfold close_or_collapse collapse in ground arith)
on_card_key_down-Adds now props other_key meta shift in_title s = inl refl

on_collapsed_key_down-Adds :
    (now : Now) (props : Props) (k : Key) (shift : Bool) (s : Composer)
    → Adds now props s.sent (on_collapsed_key_down now props k shift s).sent
unfolding on_collapsed_key_down expand expand_with clear_draft
on_collapsed_key_down-Adds now props enter false s =
    if_Adds now props _ s (create_from_draft now props s) (fast_create now props s)
      (create_from_draft-Adds now props s) (fast_create-Adds now props s)
on_collapsed_key_down-Adds now props enter true s = inl refl
on_collapsed_key_down-Adds now props escape shift s = inl refl
on_collapsed_key_down-Adds now props other_key shift s = inl refl

on_card-Adds :
    (now : Now) (props : Props) (e : Event) (s : Composer)
    → Adds now props s.sent (on_card now props e s).sent
unfolding on_card tog_pop collapse
on_card-Adds now props (card_key k meta shift in_title) s =
    on_card_key_down-Adds now props k meta shift in_title s
on_card-Adds now props (mouse_down z) s = inl (on_doc_mouse_down-sent z s)
on_card-Adds now props create_click s = create-Adds now props s
on_card-Adds now props _ s = inl (ground arith)

on_bar-Adds :
    (now : Now) (props : Props) (e : Event) (s : Composer)
    → Adds now props s.sent (on_bar now props e s).sent
unfolding on_bar expand expand_with
on_bar-Adds now props (collapsed_key k shift) s = on_collapsed_key_down-Adds now props k shift s
on_bar-Adds now props _ s = inl (ground arith)

step-Adds :
    (now : Now) (props : Props) (e : Event) (s : Composer)
    → Adds now props s.sent (step now props e s).sent
unfolding step
step-Adds now props view_changed s = inl (ground arith)
step-Adds now props timer_fired s = inl (ground arith)
step-Adds now props (answered a) s = inl (settle-sent a s)
step-Adds now props e s =
    if_Adds now props s.expanded s (on_card now props e s) (on_bar now props e s)
      (on_card-Adds now props e s) (on_bar-Adds now props e s)

reached : {s : Composer} → Reach s → IsSound s
reached start = record { busy = refl; one_call = refl; no_popover = λ e. refl; repeat_ok = tt }
reached (next r now props e) = step-IsSound now props e _ (reached r)

-- In every state that events lead to, whatever the order of keys, clicks and answers: at most one
-- call waits for an answer, and the guard is set just while it does; a collapsed card has no open
-- popover; the repeat has an interval and days; and the next event makes at most one request, which has a
-- title and fits the context and the time of that event.
pub Reach-IsSound :
    {s : Composer}
    → Reach s
    → (now : Now) (props : Props) (e : Event)
    → IsSound s × Adds now props s.sent (step now props e s).sent
Reach-IsSound {s} r now props e = (reached r, step-Adds now props e s)
