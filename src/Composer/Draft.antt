-- ===== src/Composer/Draft.antt =====
-- TaskComposer.tsx: the properties, the hooks, the helper functions and the draft.
use task_man.Prelude.{
  ℕ, ◌+◌, Bool, true, false, not, ◌&&◌, List, [], ◌∷◌, ◌++◌, Option, none, some, if◌then◌else◌,
  keep_if, find_if, or_else, get_or,
}
use task_man.Text.{Text, text_eq, is_empty, includes, to_lower_case, starts_with, trim}
use task_man.Period.{Now, today, current_week, current_month}
use task_man.Api.Types.{
  Horizon, Priority, no_priority, Recurrence, RecurrenceFreq, Member, CreateTaskInput,
}
use task_man.QuickAdd.Words.{recur_horizon, mon_fri}
use task_man.QuickAdd.{ParsedRecurrence, ParsedQuickAdd, parse_quick_add}

pub record TeamProps : Type 0 where
  pub team_id : Text
  pub members : List Member
  pub default_assignee_id : Option Text

pub record PersonalProps : Type 0 where
  pub horizon : Horizon
  pub periods : Horizon → Text

pub data Props : Type 0 where
  team : TeamProps → Props
  personal : PersonalProps → Props
  backlog : Props

pub data PopoverName : Type 0 where
  assignee due priority repeat : PopoverName

pub record RepeatDraft : Type 0 where
  pub freq : RecurrenceFreq
  pub interval : ℕ
  pub weekdays : List ℕ

-- A call of `createTask` that the server has not answered: the path that made it, and for the
-- expanded card the `createMore` that it saw.
pub data Pending : Type 0 where
  fast from_draft : Pending
  card : Bool → Pending

-- The state hooks, `inFlightRef`, whether the timer of `flashCreated` runs, the calls made and not
-- answered, and the calls made.
pub record Composer : Type 0 where
  pub expanded : Bool
  pub title : Text
  pub notes : Text
  pub assignee_id : Option Text
  pub due : Text
  pub priority : Priority
  pub repeat : Option RepeatDraft
  pub tags : List Text
  pub horizon_override : Option Horizon
  pub pop : Option PopoverName
  pub create_more : Bool
  pub creating : Bool
  pub just_created : Bool
  pub error : Option Text
  pub in_flight : Bool
  pub timer : Bool
  pub pending : List Pending
  pub sent : List CreateTaskInput

abbrev pub fresh : Composer
fresh = record {
  expanded = false;
  title = [];
  notes = [];
  assignee_id = none;
  due = [];
  priority = no_priority;
  repeat = none;
  tags = [];
  horizon_override = none;
  pop = none;
  create_more = false;
  creating = false;
  just_created = false;
  error = none;
  in_flight = false;
  timer = false;
  pending = [];
  sent = [];
}

abbrev pub is_personal : Props → Bool
is_personal (team _) = false
is_personal (personal _) = true
is_personal backlog = false

abbrev pub is_backlog : Props → Bool
is_backlog (team _) = false
is_backlog (personal _) = false
is_backlog backlog = true

abbrev pub team_id_of : Props → Option Text
team_id_of (team t) = some t.team_id
team_id_of _ = none

abbrev pub members_of : Props → List Member
members_of (team t) = t.members
members_of _ = []

abbrev pub default_assignee_of : Props → Option Text
default_assignee_of (team t) = t.default_assignee_id
default_assignee_of _ = none

-- `a || b` on texts, priorities; the empty text is falsy.
abbrev pub or_text : Option Text → Text → Text
or_text none b = b
or_text (some []) b = b
or_text (some (c ∷ s)) b = c ∷ s

abbrev pub or_priority : Option Priority → Priority → Priority
or_priority none q = q
or_priority (some no_priority) q = q
or_priority (some p) q = p

-- `s || undefined`
abbrev pub text_or_absent : Text → Option Text
text_or_absent [] = none
text_or_absent (c ∷ s) = some (c ∷ s)

abbrev pub priority_or_absent : Priority → Option Priority
priority_or_absent no_priority = none
priority_or_absent p = some p

abbrev pub tags_or_absent : List Text → Option (List Text)
tags_or_absent [] = none
tags_or_absent (t ∷ ts) = some (t ∷ ts)

abbrev pub only_id : List Member → Option Text
only_id (m ∷ []) = some m.id
only_id _ = none

unfoldable pub resolve_assignee_name : Option Text → List Member → Option Text
resolve_assignee_name none members = none
resolve_assignee_name (some []) members = none
resolve_assignee_name (some (c ∷ s)) members =
    let n = to_lower_case (c ∷ s) in
    let prefix_hits = keep_if (λ (m : Member). starts_with (to_lower_case m.name) n) members in
    elim (find_if (λ (m : Member). text_eq (to_lower_case m.name) n) members) [
      | some exact ↦ some exact.id
      | none ↦ only_id prefix_hits
    ]

-- What `horizonAndPeriod` is given in the personal context.
pub record PersonalChoice : Type 0 where
  pub horizon_token : Option Horizon
  pub view_horizon : Horizon
  pub periods : Horizon → Text

abbrev pub freq_horizon : Option RecurrenceFreq → Horizon → Horizon
freq_horizon none h = h
freq_horizon (some f) h = recur_horizon f

-- The week of today's date is a text always; the empty text stands where `current_week` is none.
unfoldable pub current_period : Now → Horizon → Text
current_period now Horizon.daily = today now
current_period now Horizon.weekly = get_or (current_week now) []
current_period now _ = current_month now

unfoldable pub horizon_and_period :
    Now → Option RecurrenceFreq → Option PersonalChoice → Horizon × Text
horizon_and_period now freq (some p) =
    let horizon = freq_horizon freq (get_or p.horizon_token p.view_horizon) in
    (horizon, p.periods horizon)
horizon_and_period now freq none =
    let horizon = freq_horizon freq Horizon.daily in (horizon, current_period now horizon)

-- The horizon and period of a new task, as all three creating paths compute them.
unfoldable pub where_to : Now → Props → Option RecurrenceFreq → Option Horizon → Horizon × Text
where_to now (team t) freq token = horizon_and_period now freq none
where_to now (personal p) freq token =
    horizon_and_period now freq
      (some (record { horizon_token = token; view_horizon = p.horizon; periods = p.periods }))
where_to now backlog freq token = (Horizon.backlog, [])

abbrev pub days_or_default : List ℕ → List ℕ
days_or_default [] = mon_fri
days_or_default (d ∷ ds) = d ∷ ds

abbrev pub recurrence_days : RepeatDraft → Option (List ℕ)
recurrence_days r = elim r.freq as (λ f. Option (List ℕ)) [
  | RecurrenceFreq.weekdays ↦ some (days_or_default r.weekdays)
  | _ ↦ none
]

unfoldable pub build_recurrence : Option RepeatDraft → Option Recurrence
build_recurrence none = none
build_recurrence (some r) = some (record {
  freq = r.freq;
  interval = some r.interval;
  anchor = none;
  weekdays = recurrence_days r;
  day_of_month = none;
})

unfoldable pub merge_tags : List Text → List Text → List Text
merge_tags existing [] = existing
merge_tags existing (t ∷ fresh_tags) =
    merge_tags (if includes existing t then existing else existing ++ t ∷ []) fresh_tags

-- The draft's repeat after a parse.
unfoldable pub merge_repeat : Option ParsedRecurrence → Option RepeatDraft → Option RepeatDraft
merge_repeat none r = r
merge_repeat (some p) r =
    some (record { freq = p.freq; interval = 1; weekdays = get_or p.weekdays mon_fri })

abbrev pub one_if : Bool → ℕ
one_if true = 1
one_if false = 0

abbrev pub is_priority : Priority → Bool
is_priority no_priority = false
is_priority _ = true

abbrev pub is_present {ℓ} : {A : Type ℓ} → Option A → Bool
is_present none = false
is_present (some a) = true

abbrev pub is_filled : Option Text → Bool
is_filled none = false
is_filled (some s) = not (is_empty s)

abbrev pub has_tags : List Text → Bool
has_tags [] = false
has_tags (t ∷ ts) = true

unfoldable pub draft_field_count : Props → Composer → ℕ
draft_field_count props s =
    one_if (is_filled s.assignee_id)
    + one_if (not (is_empty s.due))
    + one_if (is_priority s.priority)
    + one_if (is_present s.repeat)
    + one_if (not (is_empty (trim s.notes)))
    + one_if (has_tags s.tags)
    + one_if (is_personal props && is_present s.horizon_override)

unfoldable pub clear_draft : Composer → Composer
clear_draft s = record s {
  title = [];
  notes = [];
  assignee_id = none;
  due = [];
  priority = no_priority;
  repeat = none;
  tags = [];
  horizon_override = none;
  pop = none;
}

-- The body of `expand` on the parsed title.
unfoldable pub expand_with : Props → ParsedQuickAdd → Composer → Composer
expand_with props parsed s = record s {
  title = parsed.title;
  assignee_id =
      or_else (resolve_assignee_name parsed.assignee_name (members_of props))
        (or_else s.assignee_id (default_assignee_of props));
  priority = or_priority parsed.priority s.priority;
  due = or_text parsed.due_date s.due;
  repeat = merge_repeat parsed.recurrence s.repeat;
  horizon_override =
      if is_personal props then or_else parsed.horizon s.horizon_override else s.horizon_override;
  tags = merge_tags s.tags parsed.tags;
  pop = none;
  expanded = true;
}

unfoldable pub expand : Now → Props → Composer → Composer
expand now props s = expand_with props (parse_quick_add s.title (today now)) s

unfoldable pub collapse : Composer → Composer
collapse s = record s { pop = none; expanded = false }

unfoldable pub flash_created : Composer → Composer
flash_created s = record s { just_created = true; timer = true }
