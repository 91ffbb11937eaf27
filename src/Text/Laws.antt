-- ===== src/Text/Laws.antt =====
-- What the program's parts use of texts: equality, order, splitting and trimming.
use task_man.Prelude.{
  append_assoc, ℕ, ◌≡◌, ◌↔◌, refl, ap, Bool, true, false, not, List, [], ◌∷◌, ◌++◌, arith, ◌==◌,
  Bool-cases, inl, inr, All, keep_if,
}
use task_man.Text.{
  Text, text_eq, text_lt, is_space, trim_start, end_cons, trim_end, trim, head_cons, split_where,
  split_pair, words, join, is_empty,
}

text_eq→eq : (s t : Text) → text_eq s t ≡ true → s ≡ t
unfolding text_eq
text_eq→eq [] [] h = refl
text_eq→eq [] (y ∷ t) h = cc
text_eq→eq (x ∷ s) [] h = cc
text_eq→eq (x ∷ s) (y ∷ t) h = ground (arith, text_eq→eq s t)

pub text_eq_refl : (s : Text) → text_eq s s ≡ true
unfolding text_eq
text_eq_refl [] = refl
text_eq_refl (x ∷ s) = ground (arith, text_eq_refl s)

-- The test on texts decides equality.
pub text_eq_iff : (s t : Text) → (text_eq s t ≡ true) ↔ (s ≡ t)
text_eq_iff s t = (text_eq→eq s t, λ e. rw e (text_eq_refl t))

-- Texts with a common front compare by what follows it.
pub text_lt-append : (w s t : Text) → text_lt (w ++ s) (w ++ t) ≡ text_lt s t
unfolding text_lt
text_lt-append [] s t = refl
text_lt-append (x ∷ w) s t = ground (arith, text_lt-append w s t)

-- `Avoids p s`: no code unit of `s` passes `p`.
abbrev pub Avoids : (ℕ → Bool) → Text → Type 0
Avoids p s = All (λ c. p c ≡ false) s

pub split_where-last : (p : ℕ → Bool) (w : Text) → Avoids p w → split_where p w ≡ w ∷ []
unfolding split_where
split_where-last p [] h = refl
split_where-last p (c ∷ w) (q, h) = rw (q, split_where-last p w h)

-- Splitting finds the first piece up to the separator.
pub split_where-append :
    (p : ℕ → Bool) (w : Text) (c : ℕ) (s : Text)
    → Avoids p w
    → p c ≡ true
    → split_where p (w ++ c ∷ s) ≡ w ∷ split_where p s
unfolding split_where
split_where-append p [] c s h e = rw e
split_where-append p (d ∷ w) c s (q, h) e = rw (q, split_where-append p w c s h e)

pub split_pair-last : (a b : ℕ) (w : Text) → Avoids (λ c. c == a) w → split_pair a b w ≡ w ∷ []
unfolding split_pair
split_pair-last a b [] h = refl
split_pair-last a b (c ∷ []) h = refl
split_pair-last a b (c ∷ d ∷ w) (q, h) = rw (q, split_pair-last a b (d ∷ w) h)

pub split_pair-append :
    (a b : ℕ) (w s : Text)
    → Avoids (λ c. c == a) w
    → split_pair a b (w ++ a ∷ b ∷ s) ≡ w ∷ split_pair a b s
unfolding split_pair
split_pair-append a b [] s h = ground arith
split_pair-append a b (c ∷ []) s (q, h) = rw (q, split_pair-append a b [] s h)
split_pair-append a b (c ∷ d ∷ w) s (q, h) = rw (q, split_pair-append a b (d ∷ w) s h)

abbrev pub NoSpace : Text → Type 0
NoSpace s = Avoids is_space s

trim_start-NoSpace : (s : Text) → NoSpace s → trim_start s ≡ s
unfolding trim_start
trim_start-NoSpace [] h = refl
trim_start-NoSpace (c ∷ s) (q, h) = rw q

trim_end-NoSpace : (s : Text) → NoSpace s → trim_end s ≡ s
unfolding trim_end
trim_end-NoSpace [] h = refl
trim_end-NoSpace (c ∷ []) (q, h) = rw q
trim_end-NoSpace (c ∷ d ∷ s) (q, h) = rw (trim_end-NoSpace (d ∷ s) h)

-- Trimming leaves a text with no white space alone.
pub trim-NoSpace : (s : Text) → NoSpace s → trim s ≡ s
unfolding trim
trim-NoSpace s h = rw (trim_start-NoSpace s h) (trim_end-NoSpace s h)

-- A word: not empty, and free of white space.
abbrev pub IsWord : Text → Type 0
IsWord w = (is_empty w ≡ false) × NoSpace w

head_cons-Avoids :
    (p : ℕ → Bool) (c : ℕ) (ws : List Text)
    → p c ≡ false
    → All (Avoids p) ws
    → All (Avoids p) (head_cons c ws)
head_cons-Avoids p c [] e h = ((e, tt), tt)
head_cons-Avoids p c (w ∷ ws) e (q, h) = ((e, q), h)

split_where-Avoids : (p : ℕ → Bool) (s : Text) → All (Avoids p) (split_where p s)
unfolding split_where
split_where-Avoids p [] = (tt, tt)
split_where-Avoids p (c ∷ s) = elim (Bool-cases (p c)) [
  | inl cut ↦ rw cut (tt, split_where-Avoids p s)
  | inr kept ↦ rw kept (head_cons-Avoids p c (split_where p s) kept (split_where-Avoids p s))
]

keep_if-IsWord : (ws : List Text) → All NoSpace ws → All IsWord (keep_if (λ w. not (is_empty w)) ws)
keep_if-IsWord [] h = tt
keep_if-IsWord ([] ∷ ws) (q, h) = keep_if-IsWord ws h
keep_if-IsWord ((c ∷ w) ∷ ws) (q, h) = ((refl, q), keep_if-IsWord ws h)

-- The words of a text are words.
pub words-IsWord : (s : Text) → All IsWord (words s)
unfolding words
words-IsWord s = keep_if-IsWord (split_where is_space s) (split_where-Avoids is_space s)

space_is_space : is_space 32 ≡ true
unfolding is_space
space_is_space = refl

keep_if-of_IsWord :
    (w : Text) (ws : List Text)
    → IsWord w
    → keep_if (λ w. not (is_empty w)) (w ∷ ws) ≡ w ∷ keep_if (λ w. not (is_empty w)) ws
keep_if-of_IsWord w ws h = rw (h.0)

-- Words joined by a space are read back.
pub words-join : (ws : List Text) → All IsWord ws → words (join (32 ∷ []) ws) ≡ ws
unfolding join words
words-join [] h = unfold split_where in refl
words-join (w ∷ []) ((e, q), h) = rw (split_where-last is_space w q, e)
words-join (w ∷ v ∷ ws) ((e, q), h) =
    rw (split_where-append is_space w 32 (join (32 ∷ []) (v ∷ ws)) q space_is_space, e)
      (ap (λ r. w ∷ r) (words-join (v ∷ ws) h))

end_cons-append : (c : ℕ) (u w : Text) → is_empty w ≡ false → end_cons c (u ++ w) ≡ c ∷ (u ++ w)
end_cons-append c [] [] e = cc
end_cons-append c [] (d ∷ w) e = refl
end_cons-append c (d ∷ u) w e = refl

-- A text that ends in a word has nothing to trim at its end.
trim_end-append : (u w : Text) → IsWord w → trim_end (u ++ w) ≡ u ++ w
unfolding trim_end
trim_end-append [] w (e, q) = trim_end-NoSpace w q
trim_end-append (c ∷ u) w h = rw (trim_end-append u w h) (end_cons-append c u w h.0)

trim_end-join :
    (u w : Text) (ws : List Text)
    → IsWord w
    → All IsWord ws
    → trim_end (u ++ join (32 ∷ []) (w ∷ ws)) ≡ u ++ join (32 ∷ []) (w ∷ ws)
unfolding join
trim_end-join u w [] q h = trim_end-append u w q
trim_end-join u w (v ∷ ws) q (r, h) = rw regroup (trim_end-join (u ++ (w ++ 32 ∷ [])) v ws r h)
  where
    regroup :
        u ++ (w ++ 32 ∷ join (32 ∷ []) (v ∷ ws)) ≡ (u ++ (w ++ 32 ∷ [])) ++ join (32 ∷ []) (v ∷ ws)
    regroup = simp append_assoc

trim_start-join :
    (w : Text) (ws : List Text)
    → IsWord w
    → trim_start (join (32 ∷ []) (w ∷ ws)) ≡ join (32 ∷ []) (w ∷ ws)
unfolding trim_start join
trim_start-join [] ws (e, q) = cc
trim_start-join (c ∷ w) [] (e, q) = rw (q.0)
trim_start-join (c ∷ w) (v ∷ ws) (e, q) = rw (q.0)

-- Joined words have nothing to trim.
pub trim-join : (ws : List Text) → All IsWord ws → trim (join (32 ∷ []) ws) ≡ join (32 ∷ []) ws
unfolding trim
trim-join [] h = unfold join trim_start trim_end in refl
trim-join (w ∷ ws) (q, h) = rw (trim_start-join w ws q) (trim_end-join [] w ws q h)

pub text_eq_sym : (s t : Text) → text_eq s t ≡ text_eq t s
text_eq_sym s t = ground (arith, text_eq_iff s t, text_eq_iff t s)
