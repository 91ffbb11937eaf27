-- ===== src/Calendar/Years.antt =====
-- The year that holds a day.
use task_man.Prelude.{ℕ, zero, suc, ◌+◌, ◌*◌, ◌/◌, ◌≤◌, ◌<◌, ◌≡◌, arith}
use native.Mathlib.Numerals.{add-one}
use task_man.Calendar.{days_in_year, before_year, climb, get_utc_full_year}

-- The closed formula agrees with the leap rule.
pub before_year-suc : (y : ℕ) → before_year (suc y) ≡ before_year y + days_in_year y
unfolding before_year days_in_year
before_year-suc y = ground arith

pub days_in_year_bounds : (y : ℕ) → (365 ≤ days_in_year y) × (days_in_year y ≤ 366)
unfolding days_in_year
days_in_year_bounds y = ground arith

pub before_year_bounds : (y : ℕ) → (y * 365 ≤ before_year y) × (before_year y ≤ y * 366)
unfolding before_year
before_year_bounds y = omega arith

before_year-add : (y k : ℕ) → before_year y ≤ before_year (y + k)
unfolding before_year
before_year-add y k = omega arith

pub before_year_mono : (y z : ℕ) → y ≤ z → before_year y ≤ before_year z
unfolding before_year
before_year_mono y z h = omega arith

climb_lem :
    (f y n : ℕ)
    → n < y + f
    → before_year y ≤ n
    → (before_year (climb f y n) ≤ n) × (n < before_year (climb f y n + 1))
unfolding climb
climb_lem zero y n h lo = absurd (omega (arith, before_year_bounds y))
climb_lem (suc f) y n h lo = ground (arith, climb_lem f (y + 1) n)

-- The year found holds the day.
pub full_year_holds :
    (n : ℕ)
    → (before_year (get_utc_full_year n) ≤ n) × (n < before_year (suc (get_utc_full_year n)))
unfolding get_utc_full_year
full_year_holds n =
    rw (← add-one (climb (suc n) (n / 366) n))
      (climb_lem (suc n) (n / 366) n (omega arith) (omega (arith, before_year_bounds (n / 366))))

-- It is the only year that does.
pub full_year_unique :
    (y n : ℕ) → before_year y ≤ n → n < before_year (suc y) → get_utc_full_year n ≡ y
full_year_unique y n lo hi = grind (
  arith,
  full_year_holds n,
  before_year_mono (suc y) (get_utc_full_year n),
  before_year_mono (suc (get_utc_full_year n)) y,
)
