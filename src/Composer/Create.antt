-- ===== src/Composer/Create.antt =====
-- TaskComposer.tsx: the three paths that create a task, and the server's answer to them.
use task_man.Prelude.{true, false, ◌||◌, List, [], ◌∷◌, Option, none, some, if◌then◌else◌, or_else}
use task_man.Text.{Text, is_empty, trim}
use task_man.Period.{Now, today}
use task_man.Api.Types.{Horizon, Recurrence, RecurrenceFreq, CreateTaskInput}
use task_man.QuickAdd.{ParsedRecurrence, ParsedQuickAdd, parse_quick_add}
use task_man.Composer.Draft.{
  Props, is_personal, is_backlog, team_id_of, members_of, default_assignee_of, RepeatDraft, Pending,
  fast, from_draft, card, Composer, or_text, or_priority, text_or_absent, priority_or_absent,
  tags_or_absent, resolve_assignee_name, where_to, build_recurrence, merge_tags, merge_repeat,
  clear_draft, flash_created,
}

abbrev pub parsed_freq : Option ParsedRecurrence → Option RecurrenceFreq
parsed_freq none = none
parsed_freq (some r) = some r.freq

abbrev pub draft_freq : Option RepeatDraft → Option RecurrenceFreq
draft_freq none = none
draft_freq (some r) = some r.freq

abbrev pub fast_recurrence : Option ParsedRecurrence → Option Recurrence
fast_recurrence none = none
fast_recurrence (some r) = some (record {
  freq = r.freq;
  interval = none;
  anchor = none;
  weekdays = r.weekdays;
  day_of_month = none;
})

-- `isPersonal || isBacklog ? undefined : e`, and `isBacklog ? undefined : e`.
abbrev pub team_only {ℓ} : {A : Type ℓ} → Props → Option A → Option A
team_only props e = if is_personal props || is_backlog props then none else e

abbrev pub not_backlog {ℓ} : {A : Type ℓ} → Props → Option A → Option A
not_backlog props e = if is_backlog props then none else e

-- The argument of `createTask` in `fastCreate`.
unfoldable pub fast_input : Now → Props → ParsedQuickAdd → CreateTaskInput
fast_input now props parsed =
    let (horizon, period) = where_to now props (parsed_freq parsed.recurrence) parsed.horizon in
    record {
      title = parsed.title;
      notes = none;
      horizon = horizon;
      period = period;
      due_date = not_backlog props parsed.due_date;
      status = none;
      priority = parsed.priority;
      parent_id = none;
      team_id = team_only props (team_id_of props);
      assignee_id = team_only props (
          or_else (resolve_assignee_name parsed.assignee_name (members_of props))
            (default_assignee_of props));
      recurrence = not_backlog props (fast_recurrence parsed.recurrence);
      tags = tags_or_absent parsed.tags;
    }

-- That of `createFromDraft`.
unfoldable pub draft_input : Now → Props → ParsedQuickAdd → Composer → CreateTaskInput
draft_input now props parsed s =
    let merged_repeat : Option RepeatDraft = merge_repeat parsed.recurrence s.repeat in
    let merged_token : Option Horizon =
      if is_personal props then or_else parsed.horizon s.horizon_override else none in
    let (horizon, period) = where_to now props (draft_freq merged_repeat) merged_token in
    record {
      title = parsed.title;
      notes = text_or_absent (trim s.notes);
      horizon = horizon;
      period = period;
      due_date = not_backlog props (text_or_absent (or_text parsed.due_date s.due));
      status = none;
      priority = priority_or_absent (or_priority parsed.priority s.priority);
      parent_id = none;
      team_id = team_only props (team_id_of props);
      assignee_id =
          team_only props
            (or_else (resolve_assignee_name parsed.assignee_name (members_of props)) s.assignee_id);
      recurrence = not_backlog props (build_recurrence merged_repeat);
      tags = tags_or_absent (merge_tags s.tags parsed.tags);
    }

-- That of `create`.
unfoldable pub card_input : Now → Props → Composer → CreateTaskInput
card_input now props s =
    let (horizon, period) = where_to now props (draft_freq s.repeat) s.horizon_override in
    record {
      title = trim s.title;
      notes = text_or_absent (trim s.notes);
      horizon = horizon;
      period = period;
      due_date = not_backlog props (text_or_absent s.due);
      status = none;
      priority = priority_or_absent s.priority;
      parent_id = none;
      team_id = team_only props (team_id_of props);
      assignee_id = team_only props s.assignee_id;
      recurrence = not_backlog props (build_recurrence s.repeat);
      tags = tags_or_absent s.tags;
    }

-- The guard is set, and the call is made.
unfoldable pub submit : Pending → CreateTaskInput → Composer → Composer
submit how input s = record s {
  in_flight = true;
  creating = true;
  error = none;
  pending = how ∷ s.pending;
  sent = input ∷ s.sent;
}

unfoldable pub fast_create : Now → Props → Composer → Composer
fast_create now props s =
    let parsed = parse_quick_add s.title (today now) in
    if s.in_flight
    then s
    else if is_empty parsed.title
    then s
    else submit fast (fast_input now props parsed) s

unfoldable pub create_from_draft : Now → Props → Composer → Composer
create_from_draft now props s =
    let parsed = parse_quick_add s.title (today now) in
    if s.in_flight
    then s
    else if is_empty parsed.title
    then s
    else submit from_draft (draft_input now props parsed s) s

unfoldable pub create : Now → Props → Composer → Composer
create now props s =
    if is_empty (trim s.title) || s.in_flight
    then s
    else submit (card s.create_more) (card_input now props s) s

-- The `then` part of a path. `notifyTasksChanged` and `onCreated` reload what other components show.
unfoldable pub created : Pending → Composer → Composer
created fast s = flash_created (record s { title = [] })
created from_draft s = flash_created (clear_draft s)
created (card true) s = record (flash_created s) { title = []; tags = []; notes = []; pop = none }
created (card false) s = clear_draft (record (flash_created s) { expanded = false })

-- The answer to the call that was made last: success, or an error's message; then `finally`.
unfoldable pub settle_one : Option Text → Pending → List Pending → Composer → Composer
settle_one none how rest s = record (created how s) {
  in_flight = false;
  creating = false;
  pending = rest;
}
settle_one (some message) how rest s = record s {
  error = some message;
  in_flight = false;
  creating = false;
  pending = rest;
}

unfoldable pub settle : Option Text → Composer → Composer
settle answer s = elim s.pending as (λ p. Composer) [
  | [] ↦ s
  | how ∷ rest ↦ settle_one answer how rest s
]
