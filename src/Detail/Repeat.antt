-- ===== src/Detail/Repeat.antt =====
-- What the edits of a repeating task keep, and that a weekday's button does what it shows.
use task_man.Prelude.{
  ℕ, zero, suc, ◌≤◌, ◌==◌, leb, ◌≡◌, refl, arith, inl, inr, false, not, ◌&&◌, ◌||◌, List, [], ◌∷◌,
  ◌++◌, Option, none, some, get_or, keep_if, All, Bool-cases,
}
use task_man.Api.Types.{Recurrence, RecurrenceFreq}
use task_man.Detail.{has_day, day_set, insert_day, sort_days, days_of, is_single}

abbrev pub IsWeekday : ℕ → Type 0
IsWeekday d = (1 ≤ d) × (d ≤ 7)

abbrev pub IsSome : List ℕ → Type 0
IsSome [] = ⊥
IsSome (d ∷ ds) = Unit

-- What the server takes (`ValidateRecurrence` in internal/model/recur.go): weekdays go with their own
-- frequency, which names a day at least, each a day of the week; a day of the month goes with the
-- months; an interval is one at least.
abbrev pub DaysFit : RecurrenceFreq → List ℕ → Type 0
DaysFit RecurrenceFreq.weekdays ds = IsSome ds × All IsWeekday ds
DaysFit _ ds = ds ≡ []

abbrev pub IsMonthDay : ℕ → Type 0
IsMonthDay zero = Unit
IsMonthDay (suc d) = suc d ≤ 31

abbrev pub DayFits : RecurrenceFreq → Option ℕ → Type 0
DayFits RecurrenceFreq.monthly d = IsMonthDay (get_or d 0)
DayFits _ d = get_or d 0 ≡ 0

abbrev pub IntervalFits : Option ℕ → Type 0
IntervalFits none = Unit
IntervalFits (some n) = 1 ≤ n

pub record IsTaken (r : Recurrence) : Type 0 where
  pub days : DaysFit r.freq (days_of r)
  pub day : DayFits r.freq r.day_of_month
  pub interval : IntervalFits r.interval

pub keep_day-All :
    (d : ℕ) (ds : List ℕ) → All IsWeekday ds → All IsWeekday (keep_if (λ e. not (e == d)) ds)
keep_day-All d [] h = tt
keep_day-All d (e ∷ ds) (q, h) = elim (Bool-cases (e == d)) [
  | inl k ↦ rw k (keep_day-All d ds h)
  | inr k ↦ rw k (q, keep_day-All d ds h)
]

pub day_set-All : (ds : List ℕ) → All IsWeekday ds → All IsWeekday (day_set ds)
day_set-All [] h = tt
day_set-All (d ∷ ds) (q, h) = (q, keep_day-All d (day_set ds) (day_set-All ds h))

insert_day-All :
    (d : ℕ) (ds : List ℕ) → IsWeekday d → All IsWeekday ds → All IsWeekday (insert_day d ds)
insert_day-All d [] q h = (q, tt)
insert_day-All d (e ∷ ds) q (k, h) = elim (Bool-cases (leb d e)) [
  | inl c ↦ rw c (q, (k, h))
  | inr c ↦ rw c (k, insert_day-All d ds q h)
]

pub sort_days-All : (ds : List ℕ) → All IsWeekday ds → All IsWeekday (sort_days ds)
sort_days-All [] h = tt
sort_days-All (d ∷ ds) (q, h) = insert_day-All d (sort_days ds) q (sort_days-All ds h)

pub append_day-All :
    (d : ℕ) (ds : List ℕ) → IsWeekday d → All IsWeekday ds → All IsWeekday (ds ++ d ∷ [])
append_day-All d [] q h = (q, tt)
append_day-All d (e ∷ ds) q (k, h) = (k, append_day-All d ds q h)

insert_day-has : (n d : ℕ) (ds : List ℕ) → has_day n (insert_day d ds) ≡ (d == n || has_day n ds)
insert_day-has n d [] = ground arith
insert_day-has n d (e ∷ ds) = ground (arith, insert_day-has n d ds)

pub sort_days-has : (n : ℕ) (ds : List ℕ) → has_day n (sort_days ds) ≡ has_day n ds
sort_days-has n [] = refl
sort_days-has n (d ∷ ds) = ground (arith, insert_day-has n d (sort_days ds), sort_days-has n ds)

pub append_day-has : (n d : ℕ) (ds : List ℕ) → has_day n (ds ++ d ∷ []) ≡ (d == n || has_day n ds)
append_day-has n d [] = ground arith
append_day-has n d (e ∷ ds) = ground (arith, append_day-has n d ds)

pub keep_day-has :
    (n d : ℕ) (ds : List ℕ)
    → has_day n (keep_if (λ e. not (e == d)) ds) ≡ (not (d == n) && has_day n ds)
keep_day-has n d [] = ground arith
keep_day-has n d (e ∷ ds) = ground (arith, keep_day-has n d ds)

pub day_set-has : (n : ℕ) (ds : List ℕ) → has_day n (day_set ds) ≡ has_day n ds
day_set-has n [] = refl
day_set-has n (d ∷ ds) = ground (arith, keep_day-has n d (day_set ds), day_set-has n ds)

insert_day-IsSome : (d : ℕ) (ds : List ℕ) → IsSome (insert_day d ds)
insert_day-IsSome d [] = tt
insert_day-IsSome d (e ∷ ds) = elim (Bool-cases (leb d e)) [ inl c ↦ rw c tt | inr c ↦ rw c tt ]

pub sort_days-IsSome : (ds : List ℕ) → IsSome ds → IsSome (sort_days ds)
sort_days-IsSome [] h = h
sort_days-IsSome (d ∷ ds) h = insert_day-IsSome d (sort_days ds)

pub append_day-IsSome : (d : ℕ) (ds : List ℕ) → IsSome (ds ++ d ∷ [])
append_day-IsSome d [] = tt
append_day-IsSome d (e ∷ ds) = tt

day_set-apart : (d : ℕ) (ds : List ℕ) → has_day d (keep_if (λ e. not (e == d)) ds) ≡ false
day_set-apart d ds = ground (arith, keep_day-has d d ds)

-- A set with another day than this one keeps a day when this one goes.
pub kept-IsSome :
    (d : ℕ) (ds : List ℕ)
    → IsSome (day_set ds)
    → is_single (day_set ds) ≡ false
    → IsSome (keep_if (λ e. not (e == d)) (day_set ds))
kept-IsSome d [] h k = h
kept-IsSome d (e ∷ ds) h k =
    other (keep_if (λ x. not (x == e)) (day_set ds)) k (day_set-apart e (day_set ds))
  where
    other :
        (rest : List ℕ)
        → is_single (e ∷ rest) ≡ false
        → has_day e rest ≡ false
        → IsSome (keep_if (λ x. not (x == d)) (e ∷ rest))
    other [] p q = ground (arith, p)
    other (f ∷ rest) p q = elim (Bool-cases (e == d)) [
      | inl c ↦ elim (Bool-cases (f == d)) [
        | inl g ↦ ground (arith, c, g, q)
        | inr g ↦ rw (c, g) tt
      ]
      | inr c ↦ rw c tt
    ]
