-- ===== src/Composer/Tests.antt =====
-- The composer by evaluation, and the theorems at concrete states.
use task_man.Prelude.{ltb, ◌≡◌, refl, true, false, [], ◌∷◌, none, some}
use task_man.Text.{lit, text_run}
use task_man.Calendar.{calendar_run}
use task_man.Period.{period_run, Now, today}
use task_man.Api.Types.{Horizon, high, Member}
use task_man.QuickAdd.{quick_add_run, parse_quick_add}
use task_man.Composer.Draft.{
  TeamProps, team, Composer, fresh, resolve_assignee_name, expand, collapse, horizon_and_period,
  current_period, where_to, build_recurrence, merge_tags, merge_repeat, draft_field_count,
  clear_draft, expand_with, flash_created,
}
use task_man.Composer.Create.{
  fast_input, draft_input, card_input, submit, fast_create, create_from_draft, create, created,
  settle_one, settle,
}
use task_man.Composer.Events.{
  step, start, next, type_title, collapsed_key, enter, answered, on_collapsed_key_down,
  on_card_key_down, on_bar, on_card, close_or_collapse,
}
use task_man.Composer.Payload.{Adds}
use task_man.Composer.Invariant.{IsSound}
use task_man.Composer.Invariant.Steps.{Reach-IsSound}
use task_man.Composer.Agreement.{expand-collapse-expand, draft_input-ne-card_input}

run : Unit {0}
unfolding calendar_run period_run text_run quick_add_run resolve_assignee_name expand collapse
    horizon_and_period current_period where_to build_recurrence merge_tags merge_repeat
    draft_field_count clear_draft expand_with flash_created fast_input draft_input card_input submit
    fast_create create_from_draft create created settle_one settle step on_collapsed_key_down
    on_card_key_down on_bar on_card close_or_collapse
run = tt

abbrev clock : Now
clock = record { full_year = 2026; month = 6; date = 8 }

abbrev ann : Member
ann = record {
  id = lit "m1";
  name = lit "Ann Lee";
  email = none;
  role = none;
  team_ids = none;
  created_at = [];
  system_role = none;
  disabled = none;
}

abbrev filtered : TeamProps
filtered = record { team_id = lit "t1"; members = ann ∷ []; default_assignee_id = some (lit "m1") }

abbrev typed : Composer
typed = record fresh { title = lit "Fix it !high @ann" }

-- Two Enters in a row make one request; the answer frees the composer.
abbrev after_enter : Composer
after_enter = step clock (team filtered) (collapsed_key enter false) typed

double_enter :
    ((step clock (team filtered) (collapsed_key enter false) after_enter) ≡ after_enter)
    × ((step clock (team filtered) (answered none) after_enter).in_flight ≡ false)
    × (after_enter.sent
        ≡ record {
          title = lit "Fix it";
          notes = none;
          horizon = Horizon.daily;
          period = lit "2026-07-08";
          due_date = none;
          status = none;
          priority = some high;
          parent_id = none;
          team_id = some (lit "t1");
          assignee_id = some (lit "m1");
          recurrence = none;
          tags = none;
        }
          ∷ [])
unfolding run
double_enter = (refl, refl, refl)

abbrev entitled : Composer
entitled = step clock (team filtered) (type_title (lit "Fix it")) fresh

Reach-IsSound_example :
    IsSound entitled
    × Adds clock
        (team filtered)
        entitled.sent
        (step clock (team filtered) (collapsed_key enter false) entitled).sent
Reach-IsSound_example =
    Reach-IsSound (next start clock (team filtered) (type_title (lit "Fix it"))) clock
      (team filtered) (collapsed_key enter false)

abbrev due_draft : Composer
due_draft = record fresh { title = lit "Fix it"; due = lit "2026-07-10" }

draft_counted : ltb 0 (draft_field_count (team filtered) due_draft) ≡ true
unfolding run draft_field_count
draft_counted = refl

draft_input-ne-card_input_example :
    (on_collapsed_key_down clock (team filtered) enter false due_draft
      ≡ create_from_draft clock (team filtered) due_draft)
    × ((draft_input clock
          (team filtered)
          (parse_quick_add due_draft.title (today clock))
          due_draft).assignee_id
        ≡ none)
    × ((card_input clock (team filtered) (expand clock (team filtered) due_draft)).assignee_id
        ≡ some (lit "m1"))
unfolding run
draft_input-ne-card_input_example =
    draft_input-ne-card_input clock filtered due_draft (lit "m1") draft_counted refl refl refl

expand-collapse-expand_example :
    expand clock (team filtered) (collapse (expand clock (team filtered) due_draft))
    ≡ expand clock (team filtered) due_draft
expand-collapse-expand_example = expand-collapse-expand clock (team filtered) due_draft
