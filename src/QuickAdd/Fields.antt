-- ===== src/QuickAdd/Fields.antt =====
-- The other fields: the horizon of a recurrence, and the tags.
use task_man.Prelude.{
  ◌≡◌, refl, arith, false, ◌||◌, List, [], ◌∷◌, ◌++◌, Option, none, some, ◌⊎◌, drop, All,
  All-append, Option-cases, inl, inr,
}
use task_man.Text.{Text, is_empty, includes, text_eq, to_lower_case, words}
use task_man.Text.Laws.{text_eq_sym}
use task_man.QuickAdd.Words.{horizons, table_get, strip_punctuation}
use task_man.QuickAdd.Title.{scan_left, scan_taken}
use task_man.QuickAdd.{
  ParsedRecurrence, ParsedQuickAdd, nothing_parsed, priority_token, hash_token, recurrence_token,
  due_token, token, scan, finish, parse_quick_add, implied_days,
}

-- A tag is a text that is neither empty nor the name of a horizon.
abbrev pub IsTag : Text → Type 0
IsTag h = (is_empty h ≡ false) × (table_get horizons h ≡ none)

abbrev pub Distinct : List Text → Type 0
Distinct [] = Unit
Distinct (t ∷ ts) = (includes ts t ≡ false) × Distinct ts

pub record AreTags (ts : List Text) : Type 0 where
  pub distinct : Distinct ts
  pub proper : All IsTag ts

pub includes-snoc :
    (ts : List Text) (h t : Text) → includes (ts ++ h ∷ []) t ≡ (includes ts t || text_eq h t)
unfolding includes
includes-snoc [] h t = ground arith
includes-snoc (u ∷ ts) h t = ground (arith, includes-snoc ts h t)

pub Distinct-snoc :
    (ts : List Text) (h : Text) → Distinct ts → includes ts h ≡ false → Distinct (ts ++ h ∷ [])
unfolding includes
Distinct-snoc [] h d e = (refl, tt)
Distinct-snoc (t ∷ ts) h (q, d) e = (
  rw (includes-snoc ts h t) (ground (arith, text_eq_sym h t)),
  Distinct-snoc ts h d (ground arith),
)

-- What a token does to the tags: nothing, or it adds the new tag h.
abbrev AddsTag : Text → List Text → List Text → Type 0
AddsTag h ts us = (us ≡ ts ++ h ∷ []) × (includes ts h ≡ false) × IsTag h

hash_token_tags :
    (p q : ParsedQuickAdd) (k : Text)
    → hash_token p k ≡ some q
    → (q.tags ≡ p.tags) ⊎ AddsTag (strip_punctuation k) p.tags q.tags
unfolding hash_token
hash_token_tags p q k e = ground arith

token_tags :
    (base : Text) (p q : ParsedQuickAdd) (w : Text)
    → token base p w ≡ some q
    → (q.tags ≡ p.tags) ⊎ AddsTag (strip_punctuation (drop 1 (to_lower_case w))) p.tags q.tags
unfolding token priority_token recurrence_token due_token
token_tags base p q w e = ground (arith, hash_token_tags p q (drop 1 (to_lower_case w)))

AddsTag-AreTags : (h : Text) (ts us : List Text) → AddsTag h ts us → AreTags ts → AreTags us
AddsTag-AreTags h ts us (e, new, tag) t = rw e (record {
  distinct = Distinct-snoc ts h t.distinct new;
  proper = All-append IsTag ts (h ∷ []) t.proper (tag, tt);
})

token-AreTags :
    (base : Text) (p q : ParsedQuickAdd) (w : Text)
    → token base p w ≡ some q
    → AreTags p.tags
    → AreTags q.tags
token-AreTags base p q w e t = elim (token_tags base p q w e) [
  | inl same ↦ rw same t
  | inr adds ↦ AddsTag-AreTags _ p.tags q.tags adds t
]

scan-AreTags :
    (base : Text) (ws tw : List Text) (p : ParsedQuickAdd)
    → AreTags p.tags
    → AreTags (scan base ws tw p).1.tags
scan-AreTags base [] tw p t = unfold scan in t
scan-AreTags base (w ∷ ws) tw p t = elim (Option-cases (token base p w)) [
  | inl left ↦ rw (scan_left base w ws tw p left) (scan-AreTags base ws (tw ++ w ∷ []) p t)
  | inr (next, found) ↦
      rw (scan_taken base w ws tw p next found)
        (scan-AreTags base ws tw next (token-AreTags base p next w found t))
]

-- The tags are distinct; none is empty and none is the name of a horizon.
pub tags-AreTags : (base raw : Text) → AreTags (parse_quick_add raw base).tags
unfolding parse_quick_add finish
tags-AreTags base raw =
    scan-AreTags base (words raw) [] nothing_parsed (record { distinct = tt; proper = tt })

-- A recurrence has the days that its token implies.
abbrev pub HasImpliedDays : Option ParsedRecurrence → Type 0
HasImpliedDays none = Unit
HasImpliedDays (some r) = r.weekdays ≡ implied_days r.freq

token-HasImpliedDays :
    (base : Text) (p q : ParsedQuickAdd) (w : Text)
    → token base p w ≡ some q
    → HasImpliedDays p.recurrence
    → HasImpliedDays q.recurrence
unfolding token priority_token hash_token recurrence_token due_token
token-HasImpliedDays base p q w e h = ground arith

scan-HasImpliedDays :
    (base : Text) (ws tw : List Text) (p : ParsedQuickAdd)
    → HasImpliedDays p.recurrence
    → HasImpliedDays (scan base ws tw p).1.recurrence
scan-HasImpliedDays base [] tw p t = unfold scan in t
scan-HasImpliedDays base (w ∷ ws) tw p t = elim (Option-cases (token base p w)) [
  | inl left ↦ rw (scan_left base w ws tw p left) (scan-HasImpliedDays base ws (tw ++ w ∷ []) p t)
  | inr (next, found) ↦
      rw (scan_taken base w ws tw p next found)
        (scan-HasImpliedDays base ws tw next (token-HasImpliedDays base p next w found t))
]

-- `*weekdays` brings Monday to Friday, and the other recurrences no days.
pub recurrence-HasImpliedDays :
    (base raw : Text) → HasImpliedDays (parse_quick_add raw base).recurrence
unfolding parse_quick_add finish
recurrence-HasImpliedDays base raw = scan-HasImpliedDays base (words raw) [] nothing_parsed tt
