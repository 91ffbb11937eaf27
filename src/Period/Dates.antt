-- ===== src/Period/Dates.antt =====
-- Dates as texts: reading back a printed date, and moving by days.
use task_man.Prelude.{ℕ, ◌+◌, ◌≤◌, ◌≡◌, refl, ap, false, [], ◌∷◌, ◌++◌, some, ◌==◌, ◌>>=◌}
use task_man.Prelude.Int.{ℤ, pos, ◌+ℤ◌, neg_ℤ, int_laws}
use task_man.Text.{Text, is_digit}
use task_man.Text.Laws.{split_where-append, split_where-last}
use task_man.Text.Decimal.{show, pad2}
use task_man.Text.Decimal.Laws.{
  Digits, Digits-Avoids, show-Digits, pad2-Digits, number-show, number-pad2,
}
use task_man.Calendar.{get_utc_full_year, get_utc_month, get_utc_date, nat_of}
use task_man.Calendar.Fields.{date_utc-fields, set_utc_date_moves}
use task_man.Period.{dash, parts_of, parse_date, format_date, add_days}

-- 0100-01-01: `Date.UTC` reads the years before as 1900 to 1999.
abbrev pub first_day : ℕ
first_day = 36525

pub dash_is_no_digit : is_digit dash ≡ false
unfolding is_digit
dash_is_no_digit = refl

-- Two fields between dashes.
pub parts_of-two : (a b : Text) → Digits a → Digits b → parts_of (a ++ dash ∷ b) ≡ a ∷ b ∷ []
parts_of-two a b ha hb = rw (
  split_where-append (λ c. c == dash) a dash b (Digits-Avoids dash a dash_is_no_digit ha) refl,
  split_where-last (λ c. c == dash) b (Digits-Avoids dash b dash_is_no_digit hb),
)

pub parts_of-three :
    (a b c : Text)
    → Digits a
    → Digits b
    → Digits c
    → parts_of (a ++ dash ∷ (b ++ dash ∷ c)) ≡ a ∷ b ∷ c ∷ []
parts_of-three a b c ha hb hc =
    rw
      (split_where-append (λ c. c == dash) a dash (b ++ dash ∷ c)
        (Digits-Avoids dash a dash_is_no_digit ha) refl)
      (ap (λ r. a ∷ r) (parts_of-two b c hb hc))

-- Every date from 0100-01-01 on is read back from its text.
pub parse_date-format_date : (d : ℕ) → first_day ≤ d → parse_date (format_date d) ≡ some d
unfolding parse_date format_date
parse_date-format_date d h =
    rw
      (
        parts_of-three (show (get_utc_full_year d)) (pad2 (get_utc_month d + 1))
            (pad2 (get_utc_date d)) (show-Digits _) (pad2-Digits _) (pad2-Digits _),
        number-show (get_utc_full_year d),
        number-pad2 (get_utc_month d + 1),
        number-pad2 (get_utc_date d),
      )
      (date_utc-fields d h)

-- Adding k days to a date's text gives the text of the date k days on.
pub add_days-format_date :
    (d : ℕ) (k : ℤ)
    → first_day ≤ d
    → add_days (format_date d) k ≡ (nat_of (pos d +ℤ k) >>= λ e. some (format_date e))
unfolding add_days
add_days-format_date d k h = rw (parse_date-format_date d h, set_utc_date_moves d k)

-- Moving a date's text by k days and back by k days gives the text again, where both dates are from
-- 0100-01-01 on.
pub add_days-neg_ℤ :
    (d e : ℕ) (k : ℤ)
    → first_day ≤ d
    → first_day ≤ e
    → pos d +ℤ k ≡ pos e
    → (add_days (format_date d) k >>= λ s. add_days s (neg_ℤ k)) ≡ some (format_date d)
add_days-neg_ℤ d e k hd he there =
    rw (add_days-format_date d k hd, there, add_days-format_date e (neg_ℤ k) he, back)
  where
    back : pos e +ℤ neg_ℤ k ≡ pos d
    back = rw (← there) (omega int_laws)
