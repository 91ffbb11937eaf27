-- ===== src/QuickAdd/Words.antt =====
-- The tables and the helper functions of ui/src/components/quickAddParser.ts.
use task_man.Prelude.{
  ℕ, ◌+◌, ◌-◌, ◌%◌, Bool, true, false, not, ◌&&◌, ◌||◌, List, [], ◌∷◌, ◌++◌, Option, none, some,
  ltb, leb, ◌==◌, if◌then◌else◌, take, drop, ◌>>=◌, get_or,
}
use task_man.Prelude.Int.{pos, ◌-ℤ◌}
use task_man.Text.{Text, lit, text_eq, text_lt, is_digit, to_upper_case}
use task_man.Calendar.{date_utc, get_utc_full_year, get_utc_month, get_utc_date, get_utc_day}
use task_man.Period.{dash, parts_of, number_at, parse_date, format_date, add_days}
use task_man.Api.Types.{Horizon, Priority, low, medium, high, inherited, RecurrenceFreq}

-- A lookup in an object that stands for a table: the pairs written there.
unfoldable pub table_get {ℓ} : {A : Type ℓ} → List (Text × A) → Text → Option A
table_get [] k = none
table_get ((j, v) ∷ t) k = let rest = table_get t k in if text_eq j k then some v else rest

-- `PRIORITY_MAP[k]` also finds what every object inherits. Two such names are in lower case.
unfoldable pub priority_map : Text → Option Priority
priority_map k =
    table_get
      ((lit "high", high)
        ∷ (lit "h", high)
        ∷ (lit "med", medium)
        ∷ (lit "medium", medium)
        ∷ (lit "m", medium)
        ∷ (lit "low", low)
        ∷ (lit "l", low)
        ∷ (lit "constructor", inherited (lit "constructor"))
        ∷ (lit "__proto__", inherited (lit "__proto__"))
        ∷ [])
      k

abbrev pub weekdays : List (Text × ℕ)
weekdays =
    (lit "sun", 0)
    ∷ (lit "mon", 1)
    ∷ (lit "tue", 2)
    ∷ (lit "wed", 3)
    ∷ (lit "thu", 4)
    ∷ (lit "fri", 5)
    ∷ (lit "sat", 6)
    ∷ []

abbrev pub months : List (Text × ℕ)
months =
    (lit "jan", 0)
    ∷ (lit "feb", 1)
    ∷ (lit "mar", 2)
    ∷ (lit "apr", 3)
    ∷ (lit "may", 4)
    ∷ (lit "jun", 5)
    ∷ (lit "jul", 6)
    ∷ (lit "aug", 7)
    ∷ (lit "sep", 8)
    ∷ (lit "oct", 9)
    ∷ (lit "nov", 10)
    ∷ (lit "dec", 11)
    ∷ []

abbrev pub horizons : List (Text × Horizon)
horizons =
    (lit "daily", Horizon.daily)
    ∷ (lit "weekly", Horizon.weekly)
    ∷ (lit "monthly", Horizon.monthly)
    ∷ []

abbrev pub recur_freqs : List (Text × RecurrenceFreq)
recur_freqs =
    (lit "daily", RecurrenceFreq.daily)
    ∷ (lit "weekly", RecurrenceFreq.weekly)
    ∷ (lit "monthly", RecurrenceFreq.monthly)
    ∷ (lit "weekdays", RecurrenceFreq.weekdays)
    ∷ []

unfoldable pub recur_horizon : RecurrenceFreq → Horizon
recur_horizon RecurrenceFreq.daily = Horizon.daily
recur_horizon RecurrenceFreq.weekdays = Horizon.daily
recur_horizon RecurrenceFreq.weekly = Horizon.weekly
recur_horizon RecurrenceFreq.monthly = Horizon.monthly

abbrev pub mon_fri : List ℕ
mon_fri = 1 ∷ 2 ∷ 3 ∷ 4 ∷ 5 ∷ []

unfoldable pub capitalize : Text → Text
capitalize s = to_upper_case (take 1 s) ++ drop 1 s

unfoldable pub resolve_weekday : Text → Text → Option Text
resolve_weekday base target = elim (table_get weekdays target) [
  | none ↦ some base
  | some idx ↦ do d ← parse_date base; add_days base (pos ((idx + 7 - get_utc_day d) % 7))
]

-- `none` for the `null` of the source.
unfoldable pub resolve_month_day : Text → Text → ℕ → Option Text
resolve_month_day base mon day = do
  m ← table_get months mon
  b ← parse_date base
  candidate ← date_utc (get_utc_full_year b) (pos m) (pos day)
  rolled ← date_utc (get_utc_full_year b + 1) (pos m) (pos day)
  if not (get_utc_month candidate == m)
      then none
      else if text_lt (format_date candidate) base
      then some (format_date rolled)
      else some (format_date candidate)

-- A regular expression that tests each code unit in turn, up to both ends.
unfoldable pub has_shape : List (ℕ → Bool) → Text → Bool
has_shape [] [] = true
has_shape [] (c ∷ s) = false
has_shape (p ∷ ps) [] = false
has_shape (p ∷ ps) (c ∷ s) = p c && has_shape ps s

abbrev pub is_dash : ℕ → Bool
is_dash c = c == dash

unfoldable pub is_lower : ℕ → Bool
is_lower c = leb b'a' c && leb c b'z'

-- `/^\d{4}-\d{2}-\d{2}$/`
abbrev pub iso_shape : List (ℕ → Bool)
iso_shape =
    is_digit ∷ is_digit ∷ is_digit ∷ is_digit ∷ is_dash ∷ is_digit ∷ is_digit ∷ is_dash ∷ is_digit
    ∷ is_digit ∷ []

unfoldable pub is_iso_date : Text → Bool
is_iso_date s =
    if not (has_shape iso_shape s)
    then false
    else get_or
        (do
          y ← number_at (parts_of s) 0
          mo ← number_at (parts_of s) 1
          d ← number_at (parts_of s) 2
          if ltb mo 1 || ltb 12 mo || ltb d 1 || ltb 31 d then some false else (do
            dt ← date_utc y (pos mo -ℤ pos 1) (pos d)
            some (get_utc_full_year dt == y && get_utc_month dt + 1 == mo && get_utc_date dt == d)))
        false

-- `/^([a-z]{3})(\d{1,2})$/`
unfoldable pub is_month_day : Text → Bool
is_month_day s =
    has_shape (is_lower ∷ is_lower ∷ is_lower ∷ is_digit ∷ []) s
    || has_shape (is_lower ∷ is_lower ∷ is_lower ∷ is_digit ∷ is_digit ∷ []) s

-- `s.replace(/[,.;:!?)]+$/, "")`
unfoldable pub is_punctuation : ℕ → Bool
is_punctuation c =
    c == b',' || c == b'.' || c == b';' || c == b':' || c == b'!' || c == b'?' || c == b')'

abbrev pub stripped_cons : ℕ → Text → Text
stripped_cons c [] = if is_punctuation c then [] else c ∷ []
stripped_cons c (d ∷ s) = c ∷ d ∷ s

unfoldable pub strip_punctuation : Text → Text
strip_punctuation [] = []
strip_punctuation (c ∷ s) = stripped_cons c (strip_punctuation s)

-- What a test by evaluation unfolds.
unfoldable pub words_run : Unit {0}
unfolding table_get priority_map recur_horizon capitalize resolve_weekday resolve_month_day
    has_shape is_lower is_iso_date is_month_day is_punctuation strip_punctuation
words_run = tt
