-- ===== src/Text/Decimal.antt =====
-- `String(n)` and `Number(s)` on natural numbers, and `padStart(2, "0")`.
pub mod Laws
use task_man.Prelude.{
  ℕ, zero, suc, ◌+◌, ◌-◌, ◌*◌, ◌/◌, ◌%◌, Bool, true, false, List, [], ◌∷◌, ◌++◌, Option, none, some,
  ltb, if◌then◌else◌, all_of, length,
}
use task_man.Text.{Text, is_digit, trim}

unfoldable pub show_fuel : ℕ → ℕ → Text
show_fuel zero n = []
show_fuel (suc f) n =
    let front = show_fuel f (n / 10) in
    if ltb n 10 then (b'0' + n) ∷ [] else front ++ (b'0' + n % 10) ∷ []

-- n + 1 rounds are enough, as each divides by ten.
unfoldable pub show : ℕ → Text
show n = show_fuel (suc n) n

-- `String(n).padStart(2, "0")` of period.ts.
unfoldable pub pad2 : ℕ → Text
pad2 n = let s = show n in if ltb (length s) 2 then b'0' ∷ s else s

unfoldable pub value_from : ℕ → Text → ℕ
value_from acc [] = acc
value_from acc (c ∷ s) = value_from (acc * 10 + (c - b'0')) s

-- `Number(s)`. `none` stands for what is no plain decimal: NaN, and the signs, fractions, exponents
-- and hexadecimals that no period or date of the program has.
unfoldable pub number : Text → Option ℕ
unfolding trim value_from is_digit
number s = let t = trim s in if all_of is_digit t then some (value_from 0 t) else none
