-- ===== src/Period/Order.antt =====
-- Dates are compared as texts: for years of four digits that is the order of the days.
use task_man.Prelude.{
  ℕ, suc, ◌+◌, ◌-◌, ◌*◌, ◌≤◌, ◌<◌, ◌≡◌, refl, sym, ap, ◌∙◌, arith, Bool, false, not, [], ◌∷◌, ◌++◌,
  ◌&&◌, ◌||◌, ◌==◌, ltb, length, append-nil,
}
use task_man.Text.{Text, text_lt, text_eq, is_digit, lit, is_empty}
use task_man.Text.Laws.{text_lt-append}
use task_man.Text.Decimal.{show, pad2, value_from}
use task_man.Text.Decimal.Laws.{
  Digits, show-Digits, pad2-Digits, value_from-show, value_from-pad2, length-show_four,
  length-pad2_two,
}
use task_man.Calendar.{
  before_year, get_utc_full_year, get_utc_month, get_utc_date, month_index_start,
}
use task_man.Calendar.Years.{full_year_holds, before_year_mono}
use task_man.Calendar.Fields.{
  month_index, month_start-eq, month_index_holds, month_index_start_mono, get_utc_date-eq,
  get_utc_month_lt, month_length,
}
use task_man.Period.{dash, format_date, Now, today, is_overdue}

value_from_lt :
    (a b : ℕ) (s t : Text)
    → length s ≡ length t
    → Digits s
    → Digits t
    → a < b
    → value_from a s < value_from b t
unfolding value_from is_digit
value_from_lt a b [] [] e hs ht h = h
value_from_lt a b [] (y ∷ t) e hs ht h = absurd (omega arith)
value_from_lt a b (x ∷ s) [] e hs ht h = absurd (omega arith)
value_from_lt a b (x ∷ s) (y ∷ t) e (px, hs) (py, ht) h =
    value_from_lt (a * 10 + (x - b'0')) (b * 10 + (y - b'0')) s t (omega arith) hs ht (ground arith)

-- Digits that go on to whatever: the order is that of the numbers, and of the rest where they agree.
text_lt-Digits :
    (acc : ℕ) (s t u v : Text)
    → length s ≡ length t
    → Digits s
    → Digits t
    → text_lt (s ++ u) (t ++ v) ≡ (
        ltb (value_from acc s) (value_from acc t)
        || (value_from acc s == value_from acc t && text_lt u v))
unfolding text_lt value_from is_digit
text_lt-Digits acc [] [] u v e hs ht = ground arith
text_lt-Digits acc [] (y ∷ t) u v e hs ht = absurd (omega arith)
text_lt-Digits acc (x ∷ s) [] u v e hs ht = absurd (omega arith)
text_lt-Digits acc (x ∷ s) (y ∷ t) u v e hs ht = ground (
  arith,
  value_from_lt (acc * 10 + (x - b'0')) (acc * 10 + (y - b'0')) s t,
  value_from_lt (acc * 10 + (y - b'0')) (acc * 10 + (x - b'0')) t s,
  text_lt-Digits (acc * 10 + (x - b'0')) s t u v,
)

-- Days of the years 1000 to 9999, whose dates have ten characters.
abbrev pub FourDigit : ℕ → Type 0
FourDigit d = (365243 ≤ d) × (d < 3652425)

pub FourDigit-bounds :
    (d : ℕ) → FourDigit d → (1000 ≤ get_utc_full_year d) × (get_utc_full_year d < 10000)
FourDigit-bounds d h = grind (
  arith,
  full_year_holds d,
  before_year_mono (suc (get_utc_full_year d)) 1000,
  before_year_mono 10000 (get_utc_full_year d),
  ends,
)
  where
    ends : (before_year 1000 ≡ 365243) × (before_year 10000 ≡ 3652425)
    ends = unfold before_year in (refl, refl)

pub date_bounds : (d : ℕ) → (get_utc_date d < 100) × (get_utc_month d + 1 < 100)
date_bounds d = omega (
  arith,
  get_utc_month_lt d,
  get_utc_date-eq d,
  month_start-eq d,
  month_index_holds d,
  month_length (month_index d),
)

-- The order of the fields, most significant first.
fields_lt : ℕ → ℕ → Bool
fields_lt a b =
    ltb (get_utc_full_year a) (get_utc_full_year b)
    || (get_utc_full_year a == get_utc_full_year b
        && (ltb (get_utc_month a + 1) (get_utc_month b + 1)
            || (get_utc_month a + 1 == get_utc_month b + 1
                && (ltb (get_utc_date a) (get_utc_date b)
                    || (get_utc_date a == get_utc_date b && false)))))

show_lt :
    (y z : ℕ) (u v : Text)
    → (1000 ≤ y) × (y < 10000)
    → (1000 ≤ z) × (z < 10000)
    → text_lt (show y ++ u) (show z ++ v) ≡ (ltb y z || (y == z && text_lt u v))
show_lt y z u v hy hz =
    rw (value_from-show y, value_from-show z) at
      (text_lt-Digits 0 (show y) (show z) u v
        (length-show_four y hy.0 hy.1 ∙ sym (length-show_four z hz.0 hz.1)) (show-Digits y)
        (show-Digits z))

pad2_lt :
    (m n : ℕ) (u v : Text)
    → m < 100
    → n < 100
    → text_lt (pad2 m ++ u) (pad2 n ++ v) ≡ (ltb m n || (m == n && text_lt u v))
pad2_lt m n u v hm hn =
    rw (value_from-pad2 m, value_from-pad2 n) at
      (text_lt-Digits 0 (pad2 m) (pad2 n) u v (length-pad2_two m hm ∙ sym (length-pad2_two n hn))
        (pad2-Digits m) (pad2-Digits n))

pad2_lt_end :
    (m n : ℕ) → m < 100 → n < 100 → text_lt (pad2 m) (pad2 n) ≡ (ltb m n || (m == n && false))
unfolding text_lt
pad2_lt_end m n hm hn = rw (append-nil (pad2 m), append-nil (pad2 n)) at (pad2_lt m n [] [] hm hn)

dash_lt : (u v : Text) → text_lt (dash ∷ u) (dash ∷ v) ≡ text_lt u v
dash_lt u v = text_lt-append (dash ∷ []) u v

text_lt-fields :
    (a b : ℕ) → FourDigit a → FourDigit b → text_lt (format_date a) (format_date b) ≡ fields_lt a b
unfolding format_date fields_lt
text_lt-fields a b ha hb = rw (
  show_lt _ _ (dash ∷ month_day a) (dash ∷ month_day b) (FourDigit-bounds a ha)
      (FourDigit-bounds b hb),
  dash_lt (month_day a) (month_day b),
  pad2_lt _ _ (dash ∷ pad2 (get_utc_date a)) (dash ∷ pad2 (get_utc_date b)) (date_bounds a).1
      (date_bounds b).1,
  dash_lt (pad2 (get_utc_date a)) (pad2 (get_utc_date b)),
  pad2_lt_end (get_utc_date a) (get_utc_date b) (date_bounds a).0 (date_bounds b).0,
)
  where
    month_day : ℕ → Text
    month_day d = pad2 (get_utc_month d + 1) ++ dash ∷ pad2 (get_utc_date d)

earlier_month : (a b : ℕ) → month_index a < month_index b → a < b
earlier_month a b h = omega (
  arith,
  month_index_holds a,
  month_index_holds b,
  month_index_start_mono (suc (month_index a)) (month_index b) h,
)

same_month : (a b : ℕ) → month_index a ≡ month_index b → get_utc_date a + b ≡ get_utc_date b + a
same_month a b e = omega (
  arith,
  get_utc_date-eq a,
  get_utc_date-eq b,
  month_start-eq a,
  month_start-eq b,
  ap month_index_start e,
)

fields_lt_lem : (a b : ℕ) → fields_lt a b ≡ ltb a b
unfolding fields_lt
fields_lt_lem a b = ground (
  arith,
  earlier_month a b,
  earlier_month b a,
  same_month a b,
  get_utc_month_lt a,
  get_utc_month_lt b,
)

-- For dates of the years 1000 to 9999, `<` on the texts is the order of the days.
pub text_lt-format_date :
    (a b : ℕ) → FourDigit a → FourDigit b → text_lt (format_date a) (format_date b) ≡ ltb a b
text_lt-format_date a b ha hb = text_lt-fields a b ha hb ∙ fields_lt_lem a b

-- The wall clock shows day t.
pub record Shows (now : Now) (t : ℕ) : Type 0 where
  pub year_is : now.full_year ≡ get_utc_full_year t
  pub month_is : now.month ≡ get_utc_month t
  pub date_is : now.date ≡ get_utc_date t

pub today-format_date : (now : Now) (t : ℕ) → Shows now t → today now ≡ format_date t
unfolding today format_date
today-format_date now t s = rw (s.year_is, s.month_is, s.date_is)

abbrev pub is_closed : Text → Bool
is_closed status = text_eq status (lit "done") || text_eq status (lit "cancelled")

is_empty-append : (w : Text) (c : ℕ) (s : Text) → is_empty (w ++ c ∷ s) ≡ false
is_empty-append [] c s = refl
is_empty-append (x ∷ w) c s = refl

is_empty-format_date : (d : ℕ) → is_empty (format_date d) ≡ false
unfolding format_date
is_empty-format_date d = is_empty-append (show (get_utc_full_year d)) dash _

-- A task with the due date d is overdue just when it is neither done nor cancelled and d is before
-- the day that the wall clock shows, where both days are of the years 1000 to 9999.
pub is_overdue-format_date :
    (now : Now) (t d : ℕ) (status : Text)
    → Shows now t
    → FourDigit t
    → FourDigit d
    → is_overdue now (format_date d) status ≡ (not (is_closed status) && ltb d t)
unfolding is_overdue
is_overdue-format_date now t d status s ht hd =
    rw (today-format_date now t s, text_lt-format_date d t hd ht, is_empty-format_date d)
      (ground arith)
