-- ===== src/QuickAdd/Title.antt =====
-- The title that the parser leaves: the words that are no tokens.
use task_man.Prelude.{
  ◌≡◌, sym, ap, ◌∙◌, arith, Bool, true, not, List, [], ◌∷◌, ◌++◌, none, some, keep_if, is_some, All,
  Bool-cases, Option-cases, inl, inr, append_assoc, append-nil,
}
use task_man.Text.{Text, lit, words, join, trim}
use task_man.Text.Laws.{IsWord, words-IsWord, words-join, trim-join}
use task_man.QuickAdd.{
  ParsedQuickAdd, nothing_parsed, priority_token, hash_token, recurrence_token, due_token, token,
  scan, finish, parse_quick_add,
}

-- Whether a word is a token does not depend on what was parsed before it.
token-eq-none :
    (base : Text) (p q : ParsedQuickAdd) (w : Text) → token base p w ≡ none → token base q w ≡ none
unfolding token priority_token hash_token recurrence_token due_token
token-eq-none base p q w h = ground arith

-- The test that the parser leaves a word in the title.
abbrev pub is_title_word : Text → Text → Bool
is_title_word base w = not (is_some (token base nothing_parsed w))

-- The words of the title, in the order typed.
abbrev pub title_words_of : Text → Text → List Text
title_words_of base raw = keep_if (is_title_word base) (words raw)

is_title_word-eq :
    (base : Text) (p : ParsedQuickAdd) (w : Text)
    → is_title_word base w ≡ not (is_some (token base p w))
is_title_word-eq base p w =
    ground (arith, token-eq-none base p nothing_parsed w, token-eq-none base nothing_parsed p w)

pub scan_left :
    (base w : Text) (ws tw : List Text) (p : ParsedQuickAdd)
    → token base p w ≡ none
    → scan base (w ∷ ws) tw p ≡ scan base ws (tw ++ w ∷ []) p
unfolding scan
scan_left base w ws tw p e = rw (e, scan)

pub scan_taken :
    (base w : Text) (ws tw : List Text) (p next : ParsedQuickAdd)
    → token base p w ≡ some next
    → scan base (w ∷ ws) tw p ≡ scan base ws tw next
unfolding scan
scan_taken base w ws tw p next e = rw (e, scan)

scan_title :
    (base : Text) (ws tw : List Text) (p : ParsedQuickAdd)
    → (scan base ws tw p).0 ≡ tw ++ keep_if (is_title_word base) ws
scan_title base [] tw p = unfold scan in sym (append-nil tw)
scan_title base (w ∷ ws) tw p = elim (Option-cases (token base p w)) [
  | inl left ↦
      rw
        (
          scan_left base w ws tw p left,
          is_title_word-eq base p w,
          left,
          scan_title base ws (tw ++ w ∷ []) p,
        )
        (append_assoc tw (w ∷ []) (keep_if (is_title_word base) ws))
  | inr (next, found) ↦
      rw (scan_taken base w ws tw p next found, is_title_word-eq base p w, found)
        (scan_title base ws tw next)
]

-- Words that are no tokens all go to the title.
scan_plain :
    (base : Text) (ws tw : List Text) (p : ParsedQuickAdd)
    → All (λ w. is_title_word base w ≡ true) ws
    → scan base ws tw p ≡ (tw ++ ws, p)
scan_plain base [] tw p h = unfold scan in rw (append-nil tw)
scan_plain base (w ∷ ws) tw p (q, h) =
    rw (scan_left base w ws tw p left)
      (rw (append_assoc tw (w ∷ []) ws) at (scan_plain base ws (tw ++ w ∷ []) p h))
  where
    left : token base p w ≡ none
    left = ground (arith, is_title_word-eq base p w)

keep_if-All {ℓ κ} :
    {A : Type ℓ} (P : A → Type κ) (t : A → Bool) (xs : List A) → All P xs → All P (keep_if t xs)
keep_if-All P t [] h = tt
keep_if-All P t (x ∷ xs) (q, h) = elim (Bool-cases (t x)) [
  | inl e ↦ rw e (q, keep_if-All P t xs h)
  | inr e ↦ rw e (keep_if-All P t xs h)
]

keep_if-passes {ℓ} :
    {A : Type ℓ} (t : A → Bool) (xs : List A) → All (λ x. t x ≡ true) (keep_if t xs)
keep_if-passes t [] = tt
keep_if-passes t (x ∷ xs) = elim (Bool-cases (t x)) [
  | inl e ↦ rw e (e, keep_if-passes t xs)
  | inr e ↦ rw e (keep_if-passes t xs)
]

title_words_of-IsWord : (base raw : Text) → All IsWord (title_words_of base raw)
title_words_of-IsWord base raw =
    keep_if-All IsWord (is_title_word base) (words raw) (words-IsWord raw)

-- The title holds the words that are no tokens, in the order typed, joined by single spaces.
pub title-parse_quick_add :
    (base raw : Text) → (parse_quick_add raw base).title ≡ join (lit " ") (title_words_of base raw)
unfolding parse_quick_add finish
title-parse_quick_add base raw =
    rw (scan_title base (words raw) [] nothing_parsed)
      (trim-join (title_words_of base raw) (title_words_of-IsWord base raw))

-- A line of words that are no tokens is taken as it is: its fields stay empty.
pub parse_quick_add-plain :
    (base : Text) (ws : List Text)
    → All IsWord ws
    → All (λ w. is_title_word base w ≡ true) ws
    → parse_quick_add (join (lit " ") ws) base ≡ record nothing_parsed { title = join (lit " ") ws }
unfolding parse_quick_add finish
parse_quick_add-plain base ws hw hp =
    ap (λ u. finish (scan base u [] nothing_parsed)) (words-join ws hw)
    ∙ (ap finish (scan_plain base ws [] nothing_parsed hp)
        ∙ ap (λ t. record nothing_parsed { title = t }) (trim-join ws hw))

-- Parsing the title that a parse left finds no token in it and leaves it as it is.
pub parse_quick_add_again :
    (base raw : Text)
    → parse_quick_add (parse_quick_add raw base).title base
      ≡ record nothing_parsed { title = (parse_quick_add raw base).title }
parse_quick_add_again base raw = rw (title-parse_quick_add base raw) (
    parse_quick_add-plain base (title_words_of base raw) (title_words_of-IsWord base raw)
      (keep_if-passes (is_title_word base) (words raw)))

-- A title has no white space at its ends.
pub trim-title :
    (base raw : Text) → trim (parse_quick_add raw base).title ≡ (parse_quick_add raw base).title
trim-title base raw =
    rw (title-parse_quick_add base raw)
      (trim-join (title_words_of base raw) (title_words_of-IsWord base raw))
