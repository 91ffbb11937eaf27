-- ===== src/Period/Months.antt =====
-- Months as texts: moving by months.
use task_man.Prelude.{
  ℕ, ◌+◌, ◌*◌, ◌/◌, ◌%◌, ◌≤◌, ◌≡◌, refl, ap, ◌∙◌, arith, List, [], ◌∷◌, ◌++◌, some, ◌>>=◌, take,
  length, length-append, append_assoc,
}
use task_man.Prelude.Int.{ℤ, pos, ◌+ℤ◌, ◌-ℤ◌, neg_ℤ, int_laws, pos_part, neg_part}
use native.Mathlib.Nat.{le_refl}
use task_man.Text.{Text}
use task_man.Text.Decimal.{show, pad2}
use task_man.Text.Decimal.Laws.{
  show-Digits, pad2-Digits, number-show, number-pad2, length-show_four, length-pad2_two,
}
use task_man.Calendar.{date_utc, month_index_start, get_utc_full_year, get_utc_month}
use task_man.Calendar.Fields.{
  utc_year_late, month_index_unique, month_not_empty, month_index, get_utc_month_lt,
}
use task_man.Period.{dash, month_text, add_months, Now, today, current_month}
use task_man.Period.Dates.{parts_of-two}
use task_man.Period.Order.{Shows, FourDigit, FourDigit-bounds, date_bounds}

-- The text of the i-th month since January of year 0.
abbrev pub month_key : ℕ → Text
month_key i = show (i / 12) ++ dash ∷ pad2 (i % 12 + 1)

month_text-start : (i : ℕ) → month_text (month_index_start i) ≡ month_key i
unfolding month_text
month_text-start i =
    let f = month_index_unique i (month_index_start i) (le_refl _) (month_not_empty i) in
    rw (f.0, f.1)

-- Moving a month's text by k months gives the text of the month k months on, for a month from
-- 0100-01 on and a move that does not lead before the year 0.
pub add_months-month_key :
    (i j : ℕ) (k : ℤ)
    → 1200 ≤ i
    → pos i +ℤ k ≡ pos j
    → add_months (month_key i) k ≡ some (month_key j)
unfolding add_months date_utc
add_months-month_key i j k h there = rw (
  parts_of-two (show (i / 12)) (pad2 (i % 12 + 1)) (show-Digits _) (pad2-Digits _),
  number-show (i / 12),
  number-pad2 (i % 12 + 1),
  utc_year_late (i / 12) (omega arith),
  index,
  day,
  month_text-start j,
)
  where
    index : pos (i / 12 * 12) +ℤ (pos (i % 12 + 1) -ℤ pos 1 +ℤ k) ≡ pos j
    index = omega (int_laws, ap pos_part there, ap neg_part there)

    day : pos (month_index_start j) +ℤ pos 1 -ℤ pos 1 ≡ pos (month_index_start j)
    day = omega int_laws

-- Moving by k months and back by k months gives the month again.
pub add_months-neg_ℤ :
    (i j : ℕ) (k : ℤ)
    → 1200 ≤ i
    → 1200 ≤ j
    → pos i +ℤ k ≡ pos j
    → (add_months (month_key i) k >>= λ s. add_months s (neg_ℤ k)) ≡ some (month_key i)
add_months-neg_ℤ i j k hi hj there =
    rw (add_months-month_key i j k hi there) (add_months-month_key j i (neg_ℤ k) hj back)
  where
    back : pos j +ℤ neg_ℤ k ≡ pos i
    back = rw (← there) (omega int_laws)

take-append {ℓ} : {A : Type ℓ} (xs ys : List A) → take (length xs) (xs ++ ys) ≡ xs
take-append [] ys = refl
take-append (x ∷ xs) ys = ap (λ zs. x ∷ zs) (take-append xs ys)

-- The first seven characters of today's text are the text of its month, in years of four digits.
pub current_month-month_key :
    (now : Now) (t : ℕ) → Shows now t → FourDigit t → current_month now ≡ month_key (month_index t)
unfolding current_month today
current_month-month_key now t s h =
    rw
      (
        s.year_is,
        s.month_is,
        index_year,
        index_month,
        ← append_assoc (show y) (dash ∷ pad2 m) (dash ∷ pad2 now.date),
      )
      (ap (λ n. take n (key ++ dash ∷ pad2 now.date)) seven
        ∙ take-append key (dash ∷ pad2 now.date))
  where
    y : ℕ
    y = get_utc_full_year t

    m : ℕ
    m = get_utc_month t + 1

    key : Text
    key = show y ++ dash ∷ pad2 m

    index_year : month_index t / 12 ≡ y
    index_year = omega (arith, get_utc_month_lt t)

    index_month : month_index t % 12 ≡ get_utc_month t
    index_month = omega (arith, get_utc_month_lt t)

    year_digits : length (show y) ≡ 4
    year_digits = length-show_four y (FourDigit-bounds t h).0 (FourDigit-bounds t h).1

    seven : 7 ≡ length key
    seven = omega (
      arith,
      length-append (show y) (dash ∷ pad2 m),
      year_digits,
      length-pad2_two m (date_bounds t).1,
    )
