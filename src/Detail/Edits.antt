-- ===== src/Detail/Edits.antt =====
-- The edits of a repeating task: a weekday's button does what it shows, and the server takes what they
-- send.
use task_man.Prelude.{
  ℕ, ◌≤◌, ◌==◌, leb, ◌≡◌, ◌↔◌, sym, ◌∙◌, arith, inl, inr, true, false, not, List, [], ◌∷◌, ◌++◌,
  Option, none, some, if◌then◌else◌, get_or, keep_if, All, Bool-cases,
}
use task_man.Api.Types.{Recurrence, RecurrenceFreq}
use task_man.Detail.{
  has_day, day_set, insert_day, sort_days, is_single, toggled_days, set_day_of_month, Edit,
  click_weekday, type_day, edited,
}
use task_man.Detail.Repeat.{
  IsWeekday, IsSome, IsMonthDay, IsTaken, sort_days-has, append_day-has, keep_day-has, day_set-has,
  sort_days-IsSome, append_day-IsSome, kept-IsSome,
}

-- The days in their order.
abbrev pub IsAscending : List ℕ → Type 0
IsAscending [] = Unit
IsAscending (d ∷ ds) = All (λ e. d ≤ e) ds × IsAscending ds

insert_day-least :
    (n d : ℕ) (ds : List ℕ) → n ≤ d → All (λ e. n ≤ e) ds → All (λ e. n ≤ e) (insert_day d ds)
insert_day-least n d [] q h = (q, tt)
insert_day-least n d (e ∷ ds) q (k, h) = elim (Bool-cases (leb d e)) [
  | inl c ↦ rw c (q, (k, h))
  | inr c ↦ rw c (k, insert_day-least n d ds q h)
]

All-more : (n d : ℕ) (ds : List ℕ) → n ≤ d → All (λ e. d ≤ e) ds → All (λ e. n ≤ e) ds
All-more n d [] q h = tt
All-more n d (e ∷ ds) q (k, h) = (omega (arith, q, k), All-more n d ds q h)

insert_day-IsAscending : (d : ℕ) (ds : List ℕ) → IsAscending ds → IsAscending (insert_day d ds)
insert_day-IsAscending d [] h = (tt, tt)
insert_day-IsAscending d (e ∷ ds) (k, h) = elim (Bool-cases (leb d e)) [
  | inl c ↦ rw c ((ground (arith, c), All-more d e ds (ground (arith, c)) k), (k, h))
  | inr c ↦ rw c (insert_day-least e d ds (ground (arith, c)) k, insert_day-IsAscending d ds h)
]

sort_days-IsAscending : (ds : List ℕ) → IsAscending (sort_days ds)
sort_days-IsAscending [] = tt
sort_days-IsAscending (d ∷ ds) = insert_day-IsAscending d (sort_days ds) (sort_days-IsAscending ds)

-- What a click on a day's button makes of the days: nothing where it is the only one, and otherwise
-- days in their order, one at least, with this one in or out, and the others as they were.
abbrev pub IsToggled : ℕ → List ℕ → Option (List ℕ) → Type 0
IsToggled d ds none = (has_day d ds ≡ true) × (is_single (day_set ds) ≡ true)
IsToggled d ds (some es) =
    IsSome es
    × IsAscending es
    × ((n : ℕ) → has_day n es ≡ (if d == n then not (has_day d ds) else has_day n ds))

removed :
    (d n : ℕ) (ds : List ℕ)
    → has_day d ds ≡ true
    → has_day n (sort_days (keep_if (λ e. not (e == d)) (day_set ds)))
      ≡ (if d == n then not (has_day d ds) else has_day n ds)
removed d n ds h = ground (
  arith,
  h,
  sort_days-has n (keep_if (λ e. not (e == d)) (day_set ds)),
  keep_day-has n d (day_set ds),
  day_set-has n ds,
)

added :
    (d n : ℕ) (ds : List ℕ)
    → has_day d ds ≡ false
    → has_day n (sort_days (day_set ds ++ d ∷ []))
      ≡ (if d == n then not (has_day d ds) else has_day n ds)
added d n ds h = ground (
  arith,
  h,
  sort_days-has n (day_set ds ++ d ∷ []),
  append_day-has n d (day_set ds),
  day_set-has n ds,
)

has_day-IsSome : (d : ℕ) (ds : List ℕ) → has_day d ds ≡ true → IsSome ds
has_day-IsSome d [] h = ground (arith, h)
has_day-IsSome d (e ∷ ds) h = tt

-- A click on a weekday's button takes the day in or out and leaves the others, in their order, unless
-- the day is the only one: then nothing is sent.
pub toggled_days-IsToggled : (d : ℕ) (ds : List ℕ) → IsToggled d ds (toggled_days d ds)
unfolding toggled_days
toggled_days-IsToggled d ds = elim (Bool-cases (has_day d (day_set ds))) [
  | inl e ↦ elim (Bool-cases (is_single (day_set ds))) [
    | inl k ↦ rw (e, k) (sym (day_set-has d ds) ∙ e, k)
    | inr k ↦
        rw (e, k)
          (
            sort_days-IsSome _ (kept-IsSome d ds (has_day-IsSome d (day_set ds) e) k),
            sort_days-IsAscending (keep_if (λ e. not (e == d)) (day_set ds)),
            λ n. removed d n ds (sym (day_set-has d ds) ∙ e),
          )
  ]
  | inr e ↦ rw e (
    sort_days-IsSome _ (append_day-IsSome d (day_set ds)),
    sort_days-IsAscending (day_set ds ++ d ∷ []),
    λ n. added d n ds (sym (day_set-has d ds) ∙ e),
  )
]

-- The row shows the days with the weekdays' frequency, and the day of the month with the months'.
abbrev pub IsOfferedEdit : Edit → Recurrence → Type 0
IsOfferedEdit (click_weekday d) r = (r.freq ≡ RecurrenceFreq.weekdays) × IsWeekday d
IsOfferedEdit (type_day d) r = r.freq ≡ RecurrenceFreq.monthly
IsOfferedEdit _ r = Unit

abbrev pub AreTaken : Option Recurrence → Type 0
AreTaken none = Unit
AreTaken (some r) = IsTaken r

-- What an edit leaves is taken, or nothing; a typed day of the month is taken exactly where it is one of
-- 1 to 31 or none.
abbrev pub GoodEdit : Edit → Recurrence → Type 0
GoodEdit (type_day d) r = IsTaken (set_day_of_month d r) ↔ IsMonthDay (get_or d 0)
GoodEdit e r = AreTaken (edited e r)

abbrev AllDays : Option (List ℕ) → Type 0
AllDays none = Unit
AllDays (some ds) = All IsWeekday ds
