-- ===== src/Detail.antt =====
-- ui/src/components/TaskDetail.tsx: how a task repeats, and the edits of
-- it that the panel offers.
pub mod Repeat
mod Edits
pub mod TagEditor
pub mod TagSaves
pub mod Panel
mod Steps
mod Kept
mod Tests
use task_man.Prelude.{
  ℕ, zero, suc, ◌==◌, ltb, leb, Bool, true, false, not, ◌&&◌, List, [], ◌∷◌, ◌++◌, map, Option,
  none, some, if◌then◌else◌, get_or, keep_if,
}
use task_man.Prelude.Int.{ℤ, pos, negsuc}
use task_man.Text.{Text, lit, join}
use task_man.Text.Decimal.{show}
use task_man.Period.{Now, today, current_week, current_month}
use task_man.Api.Types.{Horizon, Recurrence, RecurrenceFreq}

abbrev pub default_weekdays : List ℕ
default_weekdays = 1 ∷ 2 ∷ 3 ∷ 4 ∷ 5 ∷ []

unfoldable pub preset_horizon : RecurrenceFreq → Horizon
preset_horizon RecurrenceFreq.daily = Horizon.daily
preset_horizon RecurrenceFreq.weekdays = Horizon.daily
preset_horizon RecurrenceFreq.weekly = Horizon.weekly
preset_horizon RecurrenceFreq.monthly = Horizon.monthly

abbrev pub same_horizon : Horizon → Horizon → Bool
same_horizon Horizon.daily Horizon.daily = true
same_horizon Horizon.weekly Horizon.weekly = true
same_horizon Horizon.monthly Horizon.monthly = true
same_horizon Horizon.backlog Horizon.backlog = true
same_horizon _ _ = false

abbrev pub presets : List RecurrenceFreq
presets =
    RecurrenceFreq.daily ∷ RecurrenceFreq.weekly ∷ RecurrenceFreq.monthly ∷ RecurrenceFreq.weekdays
    ∷ []

-- The presets that the panel shows for a task of this horizon.
unfoldable pub offered_presets : Horizon → List RecurrenceFreq
offered_presets h = keep_if (λ f. same_horizon (preset_horizon f) h) presets

-- The week of today's date is a text always; the empty text stands where `current_week` is none.
unfoldable pub default_period_for : Now → Horizon → Text
default_period_for now Horizon.daily = today now
default_period_for now Horizon.weekly = get_or (current_week now) []
default_period_for now _ = current_month now

abbrev pub horizon_rank : Horizon → ℕ
horizon_rank Horizon.daily = 1
horizon_rank Horizon.weekly = 2
horizon_rank Horizon.monthly = 3
horizon_rank Horizon.backlog = 0

unfoldable pub allowed_subtask_horizons : Horizon → List Horizon
allowed_subtask_horizons of =
    keep_if (λ h. leb (horizon_rank h) (horizon_rank of))
      (Horizon.daily ∷ Horizon.weekly ∷ Horizon.monthly ∷ [])

abbrev pub strip_anchor : Recurrence → Recurrence
strip_anchor r = record r { anchor = none }

abbrev pub has_day : ℕ → List ℕ → Bool
has_day d [] = false
has_day d (e ∷ ds) = if e == d then true else has_day d ds

-- `new Set(...)`, and the order of `sort((a, b) => a - b)`.
abbrev pub day_set : List ℕ → List ℕ
day_set [] = []
day_set (d ∷ ds) = let rest = keep_if (λ e. not (e == d)) (day_set ds) in d ∷ rest

abbrev pub insert_day : ℕ → List ℕ → List ℕ
insert_day d [] = d ∷ []
insert_day d (e ∷ ds) = let rest = insert_day d ds in if leb d e then d ∷ e ∷ ds else e ∷ rest

abbrev pub sort_days : List ℕ → List ℕ
sort_days [] = []
sort_days (d ∷ ds) = insert_day d (sort_days ds)

abbrev pub days_of : Recurrence → List ℕ
days_of r = get_or r.weekdays []

abbrev pub some_days : List ℕ → List ℕ
some_days [] = default_weekdays
some_days (d ∷ ds) = d ∷ ds

-- What the panel sends for a preset.
abbrev pub plain : RecurrenceFreq → Option ℕ → Recurrence
plain f n = record { freq = f; interval = n; anchor = none; weekdays = none; day_of_month = none }

abbrev pub if_weekdays : RecurrenceFreq → List ℕ → List ℕ
if_weekdays RecurrenceFreq.weekdays ds = ds
if_weekdays _ ds = []

abbrev pub if_monthly : RecurrenceFreq → Option ℕ → Option ℕ
if_monthly RecurrenceFreq.monthly d = d
if_monthly _ d = none

unfoldable pub set_freq : RecurrenceFreq → Recurrence → Recurrence
set_freq RecurrenceFreq.weekdays r = record (plain RecurrenceFreq.weekdays r.interval) {
  weekdays = some (some_days (if_weekdays r.freq (days_of r)));
}
set_freq RecurrenceFreq.monthly r = record (plain RecurrenceFreq.monthly r.interval) {
  day_of_month = if_monthly r.freq r.day_of_month;
}
set_freq f r = plain f r.interval

-- `Math.max(1, Math.floor(n) || 1)`, of the floor of what was typed; none is no number.
abbrev pub at_least_one : Option ℤ → ℕ
at_least_one (some (pos (suc n))) = suc n
at_least_one _ = 1

unfoldable pub set_interval : Option ℤ → Recurrence → Recurrence
set_interval n r = record (strip_anchor r) { interval = some (at_least_one n) }

-- The last day left is not taken away.
abbrev pub is_single : List ℕ → Bool
is_single (d ∷ []) = true
is_single _ = false

unfoldable pub toggled_days : ℕ → List ℕ → Option (List ℕ)
toggled_days d ds =
    let set = day_set ds in
    if has_day d set
    then (if is_single set then none else some (sort_days (keep_if (λ e. not (e == d)) set)))
    else some (sort_days (set ++ d ∷ []))

unfoldable pub toggle_weekday : ℕ → Recurrence → Option Recurrence
toggle_weekday d r = elim (toggled_days d (days_of r)) [
  | none ↦ none
  | some ds ↦ some (record (strip_anchor r) { freq = RecurrenceFreq.weekdays; weekdays = some ds })
]

unfoldable pub set_day_of_month : Option ℕ → Recurrence → Recurrence
set_day_of_month d r = record (strip_anchor r) { freq = RecurrenceFreq.monthly; day_of_month = d }

unfoldable pub toggle_recur_on : Option Recurrence → Option Recurrence
toggle_recur_on (some r) = none
toggle_recur_on none = some (plain RecurrenceFreq.weekly none)

-- What the panel's row of a repeating task does; none where nothing is sent. The day that is typed is a
-- natural number or nothing: a sign or a fraction is not modelled.
pub data Edit : Type 0 where
  pick_freq : RecurrenceFreq → Edit
  type_interval : Option ℤ → Edit
  click_weekday : ℕ → Edit
  type_day : Option ℕ → Edit

abbrev pub edited : Edit → Recurrence → Option Recurrence
edited (pick_freq f) r = some (set_freq f r)
edited (type_interval n) r = some (set_interval n r)
edited (click_weekday d) r = toggle_weekday d r
edited (type_day d) r = some (set_day_of_month d r)
