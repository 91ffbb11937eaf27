-- ===== src/Text.antt =====
-- The texts of the user interface, ui/src: what its code uses of JavaScript's strings.
-- A text is the list of its UTF-16 code units. Case mapping is exact on ASCII; other code units
-- are left as they are.
pub mod Laws
pub mod Decimal
use Prim.Native.Char.{code}
use Prim.Native.String.{String}
use task_man.Prelude.{
  ℕ, suc, ◌+◌, ◌-◌, Bool, true, false, not, ◌&&◌, ◌||◌, List, [], ◌∷◌, ◌++◌, ltb, leb, ◌==◌,
  if◌then◌else◌, keep_if,
}

abbrev pub Text : Type 0
Text = List ℕ

-- A literal of the source.
abbrev pub lit : String → Text
lit String.[] = []
lit (String.◌∷◌ c s) = code c ∷ lit s

unfoldable pub text_eq : Text → Text → Bool
text_eq [] [] = true
text_eq [] (y ∷ t) = false
text_eq (x ∷ s) [] = false
text_eq (x ∷ s) (y ∷ t) = x == y && text_eq s t

-- `s < t`, by code units.
unfoldable pub text_lt : Text → Text → Bool
text_lt s [] = false
text_lt [] (y ∷ t) = true
text_lt (x ∷ s) (y ∷ t) = ltb x y || (x == y && text_lt s t)

abbrev pub is_empty : Text → Bool
is_empty [] = true
is_empty (x ∷ s) = false

unfoldable pub starts_with : Text → Text → Bool
starts_with s [] = true
starts_with [] (y ∷ t) = false
starts_with (x ∷ s) (y ∷ t) = x == y && starts_with s t

-- `xs.includes(s)` on a list of texts.
unfoldable pub includes : List Text → Text → Bool
includes [] s = false
includes (t ∷ ts) s = text_eq t s || includes ts s

unfoldable pub lower_unit : ℕ → ℕ
lower_unit c = if leb b'A' c && leb c b'Z' then c + 32 else c

unfoldable pub upper_unit : ℕ → ℕ
upper_unit c = if leb b'a' c && leb c b'z' then c - 32 else c

unfoldable pub to_lower_case : Text → Text
to_lower_case [] = []
to_lower_case (c ∷ s) = lower_unit c ∷ to_lower_case s

unfoldable pub to_upper_case : Text → Text
to_upper_case [] = []
to_upper_case (c ∷ s) = upper_unit c ∷ to_upper_case s

-- The class `\s`, which `trim` removes too.
unfoldable pub is_space : ℕ → Bool
is_space c =
    (leb 9 c && leb c 13)
    || c == 32
    || c == 0xA0
    || c == 0x1680
    || (leb 0x2000 c && leb c 0x200A)
    || c == 0x2028
    || c == 0x2029
    || c == 0x202F
    || c == 0x205F
    || c == 0x3000
    || c == 0xFEFF

unfoldable pub is_digit : ℕ → Bool
is_digit c = leb b'0' c && leb c b'9'

unfoldable pub trim_start : Text → Text
trim_start [] = []
trim_start (c ∷ s) = let rest = trim_start s in if is_space c then rest else c ∷ s

abbrev pub end_cons : ℕ → Text → Text
end_cons c [] = if is_space c then [] else c ∷ []
end_cons c (d ∷ s) = c ∷ d ∷ s

unfoldable pub trim_end : Text → Text
trim_end [] = []
trim_end (c ∷ s) = end_cons c (trim_end s)

unfoldable pub trim : Text → Text
unfolding trim_start trim_end
trim s = trim_end (trim_start s)

abbrev pub head_cons : ℕ → List Text → List Text
head_cons c [] = (c ∷ []) ∷ []
head_cons c (w ∷ ws) = (c ∷ w) ∷ ws

-- `s.split(c)` at each code unit that passes the test.
unfoldable pub split_where : (ℕ → Bool) → Text → List Text
split_where p [] = [] ∷ []
split_where p (c ∷ s) = if p c then [] ∷ split_where p s else head_cons c (split_where p s)

-- `s.split("-W")` and the like: a separator of two code units.
unfoldable pub split_pair : ℕ → ℕ → Text → List Text
split_pair a b [] = [] ∷ []
split_pair a b (c ∷ []) = (c ∷ []) ∷ []
split_pair a b (c ∷ d ∷ s) =
    let closed = [] ∷ split_pair a b s in
    let longer = head_cons c (split_pair a b (d ∷ s)) in if c == a && d == b then closed else longer

-- `s.split(/\s+/).filter(Boolean)`
unfoldable pub words : Text → List Text
unfolding split_where is_space
words s = keep_if (λ w. not (is_empty w)) (split_where is_space s)

unfoldable pub join : Text → List Text → Text
join sep [] = []
join sep (w ∷ []) = w
join sep (w ∷ v ∷ ws) = w ++ (sep ++ join sep (v ∷ ws))

-- What a test by evaluation unfolds.
unfoldable pub text_run : Unit {0}
unfolding text_eq text_lt starts_with includes lower_unit upper_unit to_lower_case to_upper_case
    is_space is_digit trim_start trim_end trim split_where split_pair words join
text_run = tt
