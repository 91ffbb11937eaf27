-- ===== src/Calendar/Fields.antt =====
-- The fields of a date, and building a date from them.
use task_man.Prelude.{
  ℕ, zero, suc, ◌+◌, ◌-◌, ◌*◌, ◌/◌, ◌%◌, ◌≤◌, ◌<◌, ◌≡◌, refl, arith, Bool, true, false, some, ◌==◌,
  ap, Bool-cases, inl, inr,
}
use native.Mathlib.Nat.{le_refl, le_trans, zero-add, suc-add}
use task_man.Prelude.Int.{ℤ, pos, ◌+ℤ◌, ◌-ℤ◌, int_laws}
use task_man.Calendar.{
  is_leap, days_in_year, before_year, before_month, month_at, get_utc_full_year, day_of_year,
  get_utc_month, month_start, get_utc_date, nat_of, set_utc_date, utc_year, month_index_start,
  date_utc,
}
use task_man.Calendar.Years.{before_year_mono, before_year-suc, full_year_holds, full_year_unique}

-- The month found holds the day of the year.
month_at_holds :
    (leap : Bool) (n : ℕ)
    → n < before_month leap 12
    → (month_at leap n < 12)
      × (before_month leap (month_at leap n) ≤ n)
      × (n < before_month leap (month_at leap n + 1))
unfolding month_at
month_at_holds true n h = ground arith
month_at_holds false n h = ground arith

month_at_unique :
    (leap : Bool) (m n : ℕ)
    → m < 12
    → before_month leap m ≤ n
    → n < before_month leap (m + 1)
    → month_at leap n ≡ m
unfolding month_at
month_at_unique true m n h lo hi = ground arith
month_at_unique false m n h lo hi = ground arith

before_month_total : (y : ℕ) → before_month (is_leap y) 12 ≡ days_in_year y
unfolding before_month days_in_year
before_month_total y = ground arith

before_month_le : (leap : Bool) (m : ℕ) → m ≤ 12 → before_month leap m ≤ before_month leap 12
unfolding before_month
before_month_le leap m h = ground arith

-- The months since January of year 0 up to the one that holds day n.
abbrev pub month_index : ℕ → ℕ
month_index n = get_utc_full_year n * 12 + get_utc_month n

-- The first day after month i.
month_index_start-suc :
    (i : ℕ)
    → month_index_start (suc i)
      ≡ before_year (i / 12) + before_month (is_leap (i / 12)) (i % 12 + 1)
unfolding month_index_start
month_index_start-suc i = elim (Bool-cases (i % 12 == 11)) [
  | inl last ↦
      let year : suc i / 12 ≡ suc (i / 12) = ground arith in
      let month : suc i % 12 ≡ 0 = ground arith in
      let here : i % 12 ≡ 11 = ground arith in
      rw (year, month, here)
        (unfold before_month in
          omega (arith, before_year-suc (i / 12), before_month_total (i / 12)))
  | inr more ↦
      let year : suc i / 12 ≡ i / 12 = ground arith in
      let month : suc i % 12 ≡ i % 12 + 1 = ground arith in rw (year, month)
]

day_of_year-eq : (n : ℕ) → day_of_year n + before_year (get_utc_full_year n) ≡ n
unfolding day_of_year
day_of_year-eq n = omega (arith, full_year_holds n)

day_of_year_lt : (n : ℕ) → day_of_year n < before_month (is_leap (get_utc_full_year n)) 12
day_of_year_lt n = omega (
  arith,
  day_of_year-eq n,
  before_month_total (get_utc_full_year n),
  full_year_holds n,
  before_year-suc (get_utc_full_year n),
)

index_fields :
    (n : ℕ)
    → (month_index n / 12 ≡ get_utc_full_year n)
      × (month_index n % 12 ≡ get_utc_month n)
      × (month_start n ≤ n)
      × (n
          < before_year (get_utc_full_year n)
            + before_month (is_leap (get_utc_full_year n)) (get_utc_month n + 1))
unfolding get_utc_month month_start
index_fields n = omega (
  arith,
  full_year_holds n,
  month_at_holds (is_leap (get_utc_full_year n)) (day_of_year n) (day_of_year_lt n),
  day_of_year-eq n,
)

pub month_start-eq : (n : ℕ) → month_start n ≡ month_index_start (month_index n)
unfolding month_index_start month_start
month_start-eq n = rw ((index_fields n).0, (index_fields n).1)

-- A day lies in its month.
pub month_index_holds :
    (n : ℕ)
    → (month_index_start (month_index n) ≤ n) × (n < month_index_start (suc (month_index n)))
month_index_holds n =
    let f = index_fields n in
    rw (← month_start-eq n, month_index_start-suc (month_index n), f.0, f.1) (f.2, f.3)

-- It lies in no other.
pub month_index_unique :
    (i n : ℕ)
    → month_index_start i ≤ n
    → n < month_index_start (suc i)
    → (get_utc_full_year n ≡ i / 12) × (get_utc_month n ≡ i % 12)
unfolding get_utc_month month_index_start
month_index_unique i n lo hi = (
  year,
  rw year (month_at_unique (is_leap (i / 12)) (i % 12) (day_of_year n) (omega arith) from to),
)
  where
    above : n < before_year (i / 12) + before_month (is_leap (i / 12)) (i % 12 + 1)
    above = rw (month_index_start-suc i) at hi

    year : get_utc_full_year n ≡ i / 12
    year = full_year_unique (i / 12) n (omega arith) (
        omega (
          arith,
          above,
          before_year-suc (i / 12),
          before_month_total (i / 12),
          before_month_le (is_leap (i / 12)) (i % 12 + 1),
        ))

    day : day_of_year n + before_year (i / 12) ≡ n
    day = rw year at (day_of_year-eq n)

    from : before_month (is_leap (i / 12)) (i % 12) ≤ day_of_year n
    from = omega (arith, day)

    to : day_of_year n < before_month (is_leap (i / 12)) (i % 12 + 1)
    to = omega (arith, above, day)

-- The day of the month is from 1.
pub get_utc_date-eq : (n : ℕ) → get_utc_date n + month_start n ≡ n + 1
unfolding get_utc_date
get_utc_date-eq n = omega (arith, index_fields n)

-- `d.setUTCDate(d.getUTCDate() + k)` moves by k days.
pub set_utc_date_moves :
    (n : ℕ) (k : ℤ) → set_utc_date n (pos (get_utc_date n) +ℤ k) ≡ nat_of (pos n +ℤ k)
unfolding set_utc_date
set_utc_date_moves n k = ap nat_of (omega (int_laws, get_utc_date-eq n))

pub set_utc_date_moves_back :
    (n : ℕ) (k : ℤ) → set_utc_date n (pos (get_utc_date n) -ℤ k) ≡ nat_of (pos n -ℤ k)
unfolding set_utc_date
set_utc_date_moves_back n k = ap nat_of (omega (int_laws, get_utc_date-eq n))

pub utc_year_late : (y : ℕ) → 100 ≤ y → utc_year y ≡ y
unfolding utc_year
utc_year_late y h = ground arith

-- From 0100-01-01 on, a year is read as it is written.
pub full_year_late : (n : ℕ) → 36525 ≤ n → 100 ≤ get_utc_full_year n
full_year_late n h =
    grind (arith, full_year_holds n, before_year_mono (suc (get_utc_full_year n)) 100, hundred)
  where
    hundred : before_year 100 ≡ 36525
    hundred = unfold before_year in refl

-- Building a date from the fields of one gives it back.
pub date_utc-fields :
    (n : ℕ)
    → 36525 ≤ n
    → date_utc (get_utc_full_year n) (pos (get_utc_month n + 1) -ℤ pos 1) (pos (get_utc_date n))
      ≡ some n
unfolding date_utc
date_utc-fields n h = rw (year, index, ← month_start-eq n, day)
  where
    year : utc_year (get_utc_full_year n) ≡ get_utc_full_year n
    year = utc_year_late (get_utc_full_year n) (full_year_late n h)

    index :
        pos (get_utc_full_year n * 12) +ℤ (pos (get_utc_month n + 1) -ℤ pos 1) ≡ pos (month_index n)
    index = omega int_laws

    day : pos (month_start n) +ℤ pos (get_utc_date n) -ℤ pos 1 ≡ pos n
    day = omega (int_laws, get_utc_date-eq n)

pub get_utc_month_lt : (n : ℕ) → get_utc_month n < 12
get_utc_month_lt n = omega (arith, index_fields n)

month_index_start_le-suc : (i : ℕ) → month_index_start i ≤ month_index_start (suc i)
unfolding month_index_start before_month
month_index_start_le-suc i = rw (month_index_start-suc i) (ground arith)

month_index_start-le-add : (i k : ℕ) → month_index_start i ≤ month_index_start (k + i)
month_index_start-le-add i zero = rw zero-add (le_refl _)
month_index_start-le-add i (suc k) =
    rw (suc-add k i) (le_trans (month_index_start-le-add i k) (month_index_start_le-suc (k + i)))

pub month_index_start_mono : (i j : ℕ) → i ≤ j → month_index_start i ≤ month_index_start j
month_index_start_mono i j h = rw split (month_index_start-le-add i (j - i))
  where
    split : j ≡ (j - i) + i
    split = omega arith

-- No month has more than 31 days.
pub month_length : (i : ℕ) → month_index_start (suc i) ≤ month_index_start i + 31
unfolding month_index_start before_month
month_length i = rw (month_index_start-suc i) (ground arith)

-- No month is empty.
pub month_not_empty : (i : ℕ) → month_index_start i < month_index_start (suc i)
unfolding month_index_start before_month
month_not_empty i = rw (month_index_start-suc i) (ground arith)

-- Day k + 1 of a month of year y.
pub date_utc-month :
    (y m k : ℕ)
    → 100 ≤ y
    → m < 12
    → date_utc y (pos m) (pos (suc k)) ≡ some (before_year y + before_month (is_leap y) m + k)
unfolding date_utc month_index_start
date_utc-month y m k late small = rw (utc_year_late y late, index, year, month, day)
  where
    index : pos (y * 12) +ℤ pos m ≡ pos (y * 12 + m)
    index = omega int_laws

    year : (y * 12 + m) / 12 ≡ y
    year = omega arith

    month : (y * 12 + m) % 12 ≡ m
    month = omega arith

    day :
        pos (before_year y + before_month (is_leap y) m) +ℤ pos (suc k) -ℤ pos 1
        ≡ pos (before_year y + before_month (is_leap y) m + k)
    day = omega int_laws

-- The month of a day, from the days before the month and the next one.
pub get_utc_month_unique :
    (y m n : ℕ)
    → m < 12
    → before_year y + before_month (is_leap y) m ≤ n
    → n < before_year y + before_month (is_leap y) (m + 1)
    → (get_utc_full_year n ≡ y) × (get_utc_month n ≡ m)
get_utc_month_unique y m n small lo hi =
    rw (year, month) at
      (month_index_unique (y * 12 + m) n (unfold month_index_start in rw (year, month) lo)
        (rw (month_index_start-suc (y * 12 + m), year, month) hi))
  where
    year : (y * 12 + m) / 12 ≡ y
    year = omega arith

    month : (y * 12 + m) % 12 ≡ m
    month = omega arith
