-- ===== src/QuickAdd.antt =====
-- ui/src/components/quickAddParser.ts: the tokens of the quick-add line.
-- The base date is a valid date, as `today()` is; a date that cannot be computed from another base
-- is left out.
pub mod Words
pub mod Dates
pub mod Title
pub mod Fields
mod Tests
use task_man.Prelude.{
  ℕ, zero, suc, ◌+◌, ◌-◌, ◌%◌, Bool, true, false, not, ◌&&◌, ◌||◌, List, [], ◌∷◌, ◌++◌, Option,
  none, some, ltb, leb, ◌==◌, if◌then◌else◌, length, take, drop, ◌>>=◌, get_or, is_some,
}
use task_man.Prelude.Int.{pos, ◌-ℤ◌}
use task_man.Text.{
  Text, lit, text_eq, text_lt, is_empty, includes, is_digit, to_lower_case, to_upper_case, trim,
  words, join, starts_with,
}
use task_man.Text.Decimal.{number}
use task_man.Calendar.{date_utc, get_utc_full_year, get_utc_month, get_utc_date, get_utc_day}
use task_man.Period.{dash, parts_of, number_at, parse_date, format_date, add_days}
use task_man.Api.Types.{
  Horizon, Priority, no_priority, low, medium, high, inherited, RecurrenceFreq,
}
use task_man.QuickAdd.Words.{
  table_get, priority_map, weekdays, months, horizons, recur_freqs, recur_horizon, mon_fri,
  capitalize, resolve_weekday, is_iso_date, resolve_month_day, is_month_day, strip_punctuation,
  words_run,
}

pub record ParsedRecurrence : Type 0 where
  pub freq : RecurrenceFreq
  pub weekdays : Option (List ℕ)

pub record ParsedQuickAdd : Type 0 where
  pub title : Text
  pub priority : Option Priority
  pub due_date : Option Text
  pub due_label : Option Text
  pub assignee_name : Option Text
  pub recurrence : Option ParsedRecurrence
  pub horizon : Option Horizon
  pub tags : List Text

-- The branches of the loop body, on the word without its sign; `none` is `matched = false`.
unfoldable pub priority_token : ParsedQuickAdd → Text → Option ParsedQuickAdd
priority_token result k = do p ← priority_map k; some (record result { priority = some p })

unfoldable pub hash_token : ParsedQuickAdd → Text → Option ParsedQuickAdd
hash_token result k =
    let h = strip_punctuation k in
    if is_empty h then none else elim (table_get horizons h) [
      | some hz ↦ some (record result { horizon = some hz })
      | none ↦ some (
          if includes result.tags h then result else record result { tags = result.tags ++ h ∷ [] })
    ]

abbrev pub implied_days : RecurrenceFreq → Option (List ℕ)
implied_days RecurrenceFreq.weekdays = some mon_fri
implied_days _ = none

unfoldable pub recurrence_token : ParsedQuickAdd → Text → Option ParsedQuickAdd
recurrence_token result k = do
  f ← table_get recur_freqs k
  some (record result { recurrence = some (record { freq = f; weekdays = implied_days f }) })

abbrev pub with_due : ParsedQuickAdd → Option Text → Text → ParsedQuickAdd
with_due result date label = record result { due_date = date; due_label = some label }

unfoldable pub due_token : Text → ParsedQuickAdd → Text → Option ParsedQuickAdd
due_token base result d =
    if text_eq d (lit "today")
    then some (with_due result (some base) (lit "Today"))
    else if text_eq d (lit "tomorrow") || text_eq d (lit "tmrw")
    then some (with_due result (add_days base (pos 1)) (lit "Tomorrow"))
    else if is_some (table_get weekdays d)
    then some (with_due result (resolve_weekday base d) (capitalize d))
    else if is_iso_date d
    then some (with_due result (some d) d)
    else if is_month_day d
    then (do
      day ← number (drop 3 d)
      resolved ← resolve_month_day base (take 3 d) day
      some (with_due result (some resolved) (capitalize (take 3 d) ++ lit " " ++ drop 3 d)))
    else none

-- `w.length > 1 && w[0] === c`
unfoldable pub has_sign : ℕ → Text → Bool
has_sign c w = ltb 1 (length w) && starts_with w (c ∷ [])

-- The loop body on the word w.
unfoldable pub token : Text → ParsedQuickAdd → Text → Option ParsedQuickAdd
token base result w =
    let k = drop 1 (to_lower_case w) in
    if has_sign b'!' w
    then priority_token result k
    else if has_sign b'@' w
    then some (record result { assignee_name = some (drop 1 w) })
    else if has_sign b'#' w
    then hash_token result k
    else if has_sign b'*' w
    then recurrence_token result k
    else if has_sign b'^' w
    then due_token base result k
    else none

-- The loop, with the words left for the title.
unfoldable pub scan : Text → List Text → List Text → ParsedQuickAdd → List Text × ParsedQuickAdd
scan base [] title_words result = (title_words, result)
scan base (w ∷ ws) title_words result = elim (token base result w) [
  | none ↦ scan base ws (title_words ++ w ∷ []) result
  | some next ↦ scan base ws title_words next
]

abbrev pub nothing_parsed : ParsedQuickAdd
nothing_parsed = record {
  title = [];
  priority = none;
  due_date = none;
  due_label = none;
  assignee_name = none;
  recurrence = none;
  horizon = none;
  tags = [];
}

-- What follows the loop.
unfoldable pub finish : List Text × ParsedQuickAdd → ParsedQuickAdd
finish (title_words, result) =
    let horizon = elim result.recurrence as (λ r. Option Horizon) [
      | none ↦ result.horizon
      | some r ↦ some (recur_horizon r.freq)
    ] in
    record result { horizon = horizon; title = trim (join (lit " ") title_words) }

unfoldable pub parse_quick_add : Text → Text → ParsedQuickAdd
parse_quick_add raw base = finish (scan base (words raw) [] nothing_parsed)

-- What a test by evaluation unfolds.
unfoldable pub quick_add_run : Unit {0}
unfolding words_run priority_token hash_token recurrence_token due_token has_sign token scan finish
    parse_quick_add
quick_add_run = tt
