-- ===== src/Attention/Copy.antt =====
-- AttentionView.tsx, lines 36 to 90: the texts of a row, and the period of a date.
use task_man.Prelude.{
  ℕ, ◌+◌, ◌*◌, ◌/◌, Bool, true, false, ◌||◌, [], ◌∷◌, ◌++◌, Option, none, some, is_some,
  if◌then◌else◌, ◌==◌, ◌>>=◌, take,
}
use task_man.Prelude.Int.{ℤ, pos, negsuc, pos_part, neg_part, sub_ℕ}
use task_man.Text.{Text, lit}
use task_man.Text.Decimal.{show}
use task_man.Period.{
  Now, number_at, parts_of, parse_date, today, to_iso_week, current_week, iso_week_monday,
  current_month, LabelStyle, format_compact_date, format_month_short, format_week_short,
}
use task_man.Api.Types.{Horizon, TaskView}

abbrev pub show_int : ℤ → Text
show_int (pos n) = show n
show_int (negsuc n) = lit "-" ++ show (n + 1)

abbrev pub is_one : ℤ → Bool
is_one (pos n) = n == 1
is_one (negsuc n) = false

-- A quotient of whole weeks.
abbrev pub weeks_of : ℤ → ℤ
weeks_of d = sub_ℕ (pos_part d / 7) (neg_part d / 7)

unfoldable pub days_between : Text → Text → Option ℤ
days_between earlier later = do b ← parse_date later; a ← parse_date earlier; some (sub_ℕ b a)

unfoldable pub plural : ℤ → Text → Text
plural n word = show_int n ++ (lit " " ++ (word ++ (if is_one n then [] else lit "s")))

-- An optional text that is there and not empty.
abbrev pub filled : Option Text → Bool
filled none = false
filled (some []) = false
filled (some (c ∷ s)) = true

unfoldable pub is_recurring : TaskView → Bool
is_recurring t = is_some t.recurrence || filled t.series_id

unfoldable pub period_of : Text → Horizon → Option Text
period_of date Horizon.daily = some date
period_of date Horizon.weekly = to_iso_week date
period_of date Horizon.monthly = some (take 7 date)
period_of date Horizon.backlog = some date

pub record Copy : Type 0 where
  pub reason : Text
  pub chip : Text

module _ (locale : LabelStyle → ℕ → Text) where
  unfoldable pub overdue_copy : Now → TaskView → Option Copy
  overdue_copy now t = do
    due ← t.due_date
    days ← days_between due (today now)
    label ← format_compact_date locale due
    some (record {
      reason =
          lit "Due "
          ++ (label
              ++ (lit " · "
                  ++ (if is_one days then lit "1 day ago" else show_int days ++ lit " days ago")));
      chip = if is_one days then lit "1 day overdue" else show_int days ++ lit " days overdue";
    })

  abbrev pub anchored : Text → Text → Copy
  anchored label chip = record {
    reason = lit "Anchored " ++ (label ++ lit " · slipped");
    chip = chip;
  }

  unfoldable pub slipped_months : Now → Text → Option ℤ
  slipped_months now period = do
    cy ← number_at (parts_of (current_month now)) 0
    cm ← number_at (parts_of (current_month now)) 1
    py ← number_at (parts_of period) 0
    pm ← number_at (parts_of period) 1
    some (sub_ℕ (cy * 12 + cm) (py * 12 + pm))

  abbrev pub slipped_month_copy : Now → TaskView → Option Copy
  slipped_month_copy now t = do
    months ← slipped_months now t.period
    label ← format_month_short locale t.period
    some (
        anchored label
          (if is_one months then lit "last month" else plural months (lit "month") ++ lit " ago"))

  abbrev pub slipped_day_copy : Now → TaskView → Option Copy
  slipped_day_copy now t = do
    days ← days_between t.period (today now)
    label ← format_compact_date locale t.period
    some (
        anchored label
          (if is_one days then lit "yesterday" else plural days (lit "day") ++ lit " ago"))

  abbrev pub slipped_week_copy : Now → TaskView → Option Copy
  slipped_week_copy now t = do
    week ← current_week now
    this ← iso_week_monday week
    monday ← iso_week_monday t.period
    let weeks = weeks_of (sub_ℕ this monday)
    some (
        anchored (format_week_short t.period)
          (if is_one weeks then lit "last week" else plural weeks (lit "week") ++ lit " ago"))

  unfoldable pub slipped_copy : Now → TaskView → Option Copy
  slipped_copy now t = elim t.horizon as (λ h. Option Copy) [
    | Horizon.daily ↦ slipped_day_copy now t
    | Horizon.weekly ↦ slipped_week_copy now t
    | _ ↦ slipped_month_copy now t
  ]
