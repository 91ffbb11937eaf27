-- ===== src/Composer/Payload.antt =====
-- What the composer asks the server to create.
use task_man.Prelude.{
  ◌≡◌, ◌≢◌, ◌⊎◌, inl, inr, List, ◌∷◌, refl, arith, Bool, true, false, ◌||◌, [], Option, none, some,
  if◌then◌else◌,
}
use task_man.Text.{is_empty, trim}
use task_man.Period.{Now, today}
use task_man.Api.Types.{Horizon, Recurrence, CreateTaskInput}
use task_man.QuickAdd.Words.{recur_horizon}
use task_man.QuickAdd.{ParsedQuickAdd, parse_quick_add}
use task_man.QuickAdd.Fields.{HasImpliedDays, recurrence-HasImpliedDays}
use task_man.Composer.Draft.{
  Props, team, personal, backlog, fast, from_draft, card, Composer, where_to, horizon_and_period,
  current_period, build_recurrence,
}
use task_man.Composer.Create.{
  fast_input, draft_input, card_input, fast_create, create_from_draft, create, submit,
}

-- A recurrence fixes the horizon, and never has an empty list of days.
abbrev pub IsCoupled : Horizon → Option Recurrence → Type 0
IsCoupled h none = Unit
IsCoupled h (some r) = (h ≡ recur_horizon r.freq) × (r.weekdays ≢ some [])

-- What the server accepts from each context.
abbrev pub Fits : Now → Props → CreateTaskInput → Type 0
Fits now (team t) i =
    (i.team_id ≡ some t.team_id)
    × (i.period ≡ current_period now i.horizon)
    × IsCoupled i.horizon i.recurrence
    × ((i.recurrence ≡ none) → i.horizon ≡ Horizon.daily)
Fits now (personal p) i =
    (i.team_id ≡ none)
    × (i.assignee_id ≡ none)
    × (i.period ≡ p.periods i.horizon)
    × IsCoupled i.horizon i.recurrence
Fits now backlog i =
    (i.team_id ≡ none)
    × (i.assignee_id ≡ none)
    × (i.horizon ≡ Horizon.backlog)
    × (i.period ≡ [])
    × (i.due_date ≡ none)
    × (i.recurrence ≡ none)

fast_input-Fits :
    (now : Now) (props : Props) (p : ParsedQuickAdd)
    → HasImpliedDays p.recurrence
    → Fits now props (fast_input now props p)
unfolding fast_input where_to horizon_and_period
fast_input-Fits now (team t) p h = ground arith
fast_input-Fits now (personal q) p h = ground arith
fast_input-Fits now backlog p h = ground arith

draft_input-Fits :
    (now : Now) (props : Props) (p : ParsedQuickAdd) (s : Composer)
    → Fits now props (draft_input now props p s)
unfolding draft_input where_to horizon_and_period build_recurrence
draft_input-Fits now (team t) p s = ground arith
draft_input-Fits now (personal q) p s = ground arith
draft_input-Fits now backlog p s = ground arith

card_input-Fits :
    (now : Now) (props : Props) (s : Composer) → Fits now props (card_input now props s)
unfolding card_input where_to horizon_and_period build_recurrence
card_input-Fits now (team t) s = ground arith
card_input-Fits now (personal q) s = ground arith
card_input-Fits now backlog s = ground arith

-- One request more, which has a title and fits the properties and the time that it is made with.
pub record Added (now : Now) (props : Props) (old new : List CreateTaskInput) : Type 0 where
  pub input : CreateTaskInput
  pub sent : new ≡ input ∷ old
  pub fits : Fits now props input
  pub titled : is_empty input.title ≡ false

-- No request, or one more.
abbrev pub Adds : Now → Props → List CreateTaskInput → List CreateTaskInput → Type 0
Adds now props old new = (new ≡ old) ⊎ Added now props old new

-- An early return leaves the state.
guarded_Adds :
    (now : Now) (props : Props) (test : Bool) (s t : Composer)
    → (test ≡ false → Adds now props s.sent t.sent)
    → Adds now props s.sent (if test then s else t).sent
guarded_Adds now props true s t k = inl refl
guarded_Adds now props false s t k = k refl

pub fast_create-Adds :
    (now : Now) (props : Props) (s : Composer)
    → Adds now props s.sent (fast_create now props s).sent
unfolding fast_create submit fast_input
fast_create-Adds now props s =
    let parsed = parse_quick_add s.title (today now) in
    let sent = submit fast (fast_input now props parsed) s in
    guarded_Adds now props s.in_flight s (if is_empty parsed.title then s else sent) (λ _.
      guarded_Adds now props (is_empty parsed.title) s sent (λ titled. inr (record {
        input = fast_input now props parsed;
        sent = refl;
        fits = fast_input-Fits now props parsed (recurrence-HasImpliedDays (today now) s.title);
        titled = titled;
      })))

pub create_from_draft-Adds :
    (now : Now) (props : Props) (s : Composer)
    → Adds now props s.sent (create_from_draft now props s).sent
unfolding create_from_draft submit draft_input
create_from_draft-Adds now props s =
    let parsed = parse_quick_add s.title (today now) in
    let sent = submit from_draft (draft_input now props parsed s) s in
    guarded_Adds now props s.in_flight s (if is_empty parsed.title then s else sent) (λ _.
      guarded_Adds now props (is_empty parsed.title) s sent (λ titled. inr (record {
        input = draft_input now props parsed s;
        sent = refl;
        fits = draft_input-Fits now props parsed s;
        titled = titled;
      })))

pub create-Adds :
    (now : Now) (props : Props) (s : Composer) → Adds now props s.sent (create now props s).sent
unfolding create submit card_input
create-Adds now props s =
    guarded_Adds now props (is_empty (trim s.title) || s.in_flight) s
      (submit (card s.create_more) (card_input now props s) s)
      (λ free. inr (record {
        input = card_input now props s;
        sent = refl;
        fits = card_input-Fits now props s;
        titled = ground arith;
      }))
