-- ===== src/Text/Decimal/Laws.antt =====
-- Reading back a printed number.
use task_man.Prelude.{
  ℕ, zero, suc, ◌+◌, ◌-◌, ◌*◌, ◌/◌, ◌%◌, ◌≤◌, ◌<◌, ◌≡◌, refl, ap, true, false, [], ◌∷◌, ◌++◌, some,
  arith, ◌∙◌, ◌⊎◌, ltb, ◌==◌, all_of, length, All, All-append, Bool-cases, inl, inr, length-append,
  lt→ltb,
}
use task_man.Text.{Text, is_digit, is_space}
use task_man.Text.Laws.{NoSpace, Avoids, trim-NoSpace}
use task_man.Text.Decimal.{show_fuel, show, pad2, value_from, number}

abbrev pub Digits : Text → Type 0
Digits s = All (λ c. is_digit c ≡ true) s

digit_lem : (n : ℕ) → n < 10 → is_digit (b'0' + n) ≡ true
unfolding is_digit
digit_lem n h = ground arith

show_fuel-Digits : (f n : ℕ) → Digits (show_fuel f n)
unfolding show_fuel
show_fuel-Digits zero n = tt
show_fuel-Digits (suc f) n = elim (Bool-cases (ltb n 10)) [
  | inl small ↦ rw small (digit_lem n (ground arith), tt)
  | inr large ↦ rw large (
      All-append (λ c. is_digit c ≡ true) (show_fuel f (n / 10)) ((b'0' + n % 10) ∷ [])
        (show_fuel-Digits f (n / 10)) (digit_lem (n % 10) (omega arith), tt))
]

pub show-Digits : (n : ℕ) → Digits (show n)
unfolding show
show-Digits n = show_fuel-Digits (suc n) n

pub pad2-Digits : (n : ℕ) → Digits (pad2 n)
unfolding pad2 is_digit
pad2-Digits n = elim (Bool-cases (ltb (length (show n)) 2)) [
  | inl short ↦ rw short (refl, show-Digits n)
  | inr long ↦ rw long (show-Digits n)
]

value_from-snoc :
    (acc c : ℕ) (s : Text) → value_from acc (s ++ c ∷ []) ≡ value_from acc s * 10 + (c - b'0')
unfolding value_from
value_from-snoc acc c [] = refl
value_from-snoc acc c (d ∷ s) = value_from-snoc (acc * 10 + (d - b'0')) c s

value_from-show_fuel : (f n : ℕ) → n < f → value_from 0 (show_fuel f n) ≡ n
unfolding show_fuel
value_from-show_fuel zero n h = absurd (omega arith)
value_from-show_fuel (suc f) n h = elim (Bool-cases (ltb n 10)) [
  | inl small ↦ rw small (unfold value_from in omega arith)
  | inr large ↦
      rw
        (
          large,
          value_from-snoc 0 (b'0' + n % 10) (show_fuel f (n / 10)),
          value_from-show_fuel f (n / 10) (ground arith),
        )
        (omega arith)
]

Digits-NoSpace : (s : Text) → Digits s → NoSpace s
unfolding is_digit is_space
Digits-NoSpace [] h = tt
Digits-NoSpace (c ∷ s) (p, h) = (ground arith, Digits-NoSpace s h)

Digits-all_of : (s : Text) → Digits s → all_of is_digit s ≡ true
Digits-all_of [] h = refl
Digits-all_of (c ∷ s) (p, h) = rw p (Digits-all_of s h)

-- Digits hold no other code unit, so a date splits at its dashes.
pub Digits-Avoids : (d : ℕ) (s : Text) → is_digit d ≡ false → Digits s → Avoids (λ c. c == d) s
unfolding is_digit
Digits-Avoids d [] e h = tt
Digits-Avoids d (c ∷ s) e (p, h) = (ground arith, Digits-Avoids d s e h)

number-Digits : (s : Text) → Digits s → number s ≡ some (value_from 0 s)
unfolding number
number-Digits s h = rw (trim-NoSpace s (Digits-NoSpace s h), Digits-all_of s h)

-- Every printed number is read back.
pub number-show : (n : ℕ) → number (show n) ≡ some n
number-show n =
    rw (number-Digits (show n) (show-Digits n))
      (ap some (unfold show in value_from-show_fuel (suc n) n (omega arith)))

-- So is one that is padded with a zero.
pub number-pad2 : (n : ℕ) → number (pad2 n) ≡ some n
unfolding pad2
number-pad2 n = elim (Bool-cases (ltb (length (show n)) 2)) [
  | inl short ↦
      rw (short, number-Digits (b'0' ∷ show n) (unfold is_digit in (refl, show-Digits n)))
        (ap some (unfold show value_from in value_from-show_fuel (suc n) n (omega arith)))
  | inr long ↦ rw long (number-show n)
]

pub value_from-show : (n : ℕ) → value_from 0 (show n) ≡ n
unfolding show
value_from-show n = value_from-show_fuel (suc n) n (omega arith)

pub value_from-pad2 : (n : ℕ) → value_from 0 (pad2 n) ≡ n
unfolding pad2 value_from
value_from-pad2 n = elim (Bool-cases (ltb (length (show n)) 2)) [
  | inl short ↦ rw short (value_from-show n)
  | inr long ↦ rw long (value_from-show n)
]

show_fuel_step :
    (f n : ℕ) → 10 ≤ n → length (show_fuel (suc f) n) ≡ length (show_fuel f (n / 10)) + 1
unfolding show_fuel
show_fuel_step f n h = rw (large) (length-append (show_fuel f (n / 10)) ((b'0' + n % 10) ∷ []))
  where
    large : ltb n 10 ≡ false
    large = ground arith

show_fuel_last : (f n : ℕ) → n < 10 → length (show_fuel (suc f) n) ≡ 1
unfolding show_fuel
show_fuel_last f n h = rw (lt→ltb n 10 h)

show_fuel_four :
    (f n : ℕ) → 1000 ≤ n → n < 10000 → length (show_fuel (suc (suc (suc (suc f)))) n) ≡ 4
show_fuel_four f n lo hi = omega (
  arith,
  show_fuel_step (suc (suc (suc f))) n,
  show_fuel_step (suc (suc f)) (n / 10),
  show_fuel_step (suc f) (n / 10 / 10),
  show_fuel_last f (n / 10 / 10 / 10),
)

-- A year from 1000 to 9999 has four digits.
pub length-show_four : (n : ℕ) → 1000 ≤ n → n < 10000 → length (show n) ≡ 4
unfolding show
length-show_four n lo hi =
    ap (λ k. length (show_fuel (suc k) n)) split ∙ show_fuel_four (n - 3) n lo hi
  where
    split : n ≡ suc (suc (suc (n - 3)))
    split = omega arith

length-show_short :
    (n : ℕ) → n < 100 → ((n < 10) × (length (show n) ≡ 1)) ⊎ ((10 ≤ n) × (length (show n) ≡ 2))
unfolding show
length-show_short n h = elim (Bool-cases (ltb n 10)) [
  | inl small ↦ inl (ground arith, show_fuel_last n n (ground arith))
  | inr large ↦ inr (ground arith, two (ground arith))
]
  where
    two : 10 ≤ n → length (show_fuel (suc n) n) ≡ 2
    two lo =
        ap (λ k. length (show_fuel (suc k) n)) split
        ∙ omega (
          arith,
          show_fuel_step (suc (n - 1)) n lo,
          show_fuel_last (n - 1) (n / 10) (omega arith),
        )
      where
        split : n ≡ suc (n - 1)
        split = omega arith

pub length-pad2_two : (n : ℕ) → n < 100 → length (pad2 n) ≡ 2
unfolding pad2
length-pad2_two n h = ground (arith, length-show_short n h)
