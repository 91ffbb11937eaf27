-- ===== src/Tags/Kept.antt =====
-- What the tag filter keeps, and that it survives a reload of the page.
use task_man.Prelude.{
  ◌≡◌, refl, sym, ap, ◌∙◌, arith, inl, inr, Bool, true, false, not, List, [], ◌∷◌, ◌++◌, map,
  append_assoc, append-nil, Option, none, some, keep_if, All, All-append, Bool-cases,
}
use task_man.Text.{Text, text_eq, is_empty}
use task_man.Text.Laws.{text_eq_sym}
use task_man.Tags.{NormalizedTag, ok, invalid, too_long, normalize_tag}
use task_man.Tags.Laws.{IsNormal, normalize_tag-IsNormal, normalize_tag-of_IsNormal}
use task_man.Tags.Filter.{
  Stored, missing, unreadable, other_value, array, includes_tag, push_tag, read_entries,
  read_stored, TagStore, set_selected, toggle_tag,
}

-- A tag that the filter holds: normal and not empty.
pub record IsKept (t : Text) : Type 0 where
  pub normal : IsNormal t
  pub full : is_empty t ≡ false

-- No tag twice.
abbrev pub Distinct : List Text → Type 0
Distinct [] = Unit
Distinct (t ∷ ts) = (includes_tag t ts ≡ false) × Distinct ts

-- A list of tags fit for the server.
abbrev pub IsFilter : List Text → Type 0
IsFilter ts = All IsKept ts × Distinct ts

includes-append :
    (t u : Text) (ts : List Text)
    → includes_tag t ts ≡ false
    → text_eq u t ≡ false
    → includes_tag t (ts ++ u ∷ []) ≡ false
includes-append t u [] h e = ground (arith, e)
includes-append t u (x ∷ ts) h e = ground (arith, h, e, includes-append t u ts)

Distinct-append :
    (u : Text) (ts : List Text) → includes_tag u ts ≡ false → Distinct ts → Distinct (ts ++ u ∷ [])
Distinct-append u [] h d = (refl, tt)
Distinct-append u (t ∷ ts) h (q, d) = (
  includes-append t u ts q (ground (arith, h, text_eq_sym u t)),
  Distinct-append u ts (ground (arith, h)) d,
)

append-IsFilter :
    (u : Text) (ts : List Text)
    → IsKept u
    → includes_tag u ts ≡ false
    → IsFilter ts
    → IsFilter (ts ++ u ∷ [])
append-IsFilter u ts k h (a, d) =
    (All-append IsKept ts (u ∷ []) a (k, tt), Distinct-append u ts h d)

push_ok-IsFilter :
    (u : Text) (ts : List Text) → IsNormal u → IsFilter ts → IsFilter (push_tag (ok u) ts)
push_ok-IsFilter u ts n f = elim (Bool-cases (is_empty u)) [
  | inl e ↦ rw e f
  | inr e ↦ elim (Bool-cases (includes_tag u ts)) [
    | inl i ↦ rw (e, i) f
    | inr i ↦ rw (e, i) (append-IsFilter u ts (record { normal = n; full = e }) i f)
  ]
]

push-IsFilter : (x : Text) (ts : List Text) → IsFilter ts → IsFilter (push_tag (normalize_tag x) ts)
push-IsFilter x ts f = pushed (normalize_tag x) refl
  where
    pushed : (n : NormalizedTag) → normalize_tag x ≡ n → IsFilter (push_tag n ts)
    pushed (ok u) e = push_ok-IsFilter u ts (normalize_tag-IsNormal x u e).1 f
    pushed (invalid u) e = f
    pushed (too_long u) e = f

entries-IsFilter :
    (xs : List (Option Text)) (out : List Text) → IsFilter out → IsFilter (read_entries xs out)
unfolding read_entries
entries-IsFilter [] out f = f
entries-IsFilter (none ∷ xs) out f = entries-IsFilter xs out f
entries-IsFilter (some x ∷ xs) out f =
    entries-IsFilter xs (push_tag (normalize_tag x) out) (push-IsFilter x out f)

-- Whatever the browser has stored, the filter read from it has only normal tags that are not
-- empty, and none twice.
pub read_stored-IsFilter : (v : Stored) → IsFilter (read_stored v)
unfolding read_stored
read_stored-IsFilter missing = (tt, tt)
read_stored-IsFilter unreadable = (tt, tt)
read_stored-IsFilter other_value = (tt, tt)
read_stored-IsFilter (array xs) = entries-IsFilter xs [] (tt, tt)

-- No tag of the second list is in the first.
abbrev pub AllNew : List Text → List Text → Type 0
AllNew out ts = All (λ t. includes_tag t out ≡ false) ts

AllNew-append :
    (out ts : List Text) (u : Text)
    → AllNew out ts
    → includes_tag u ts ≡ false
    → AllNew (out ++ u ∷ []) ts
AllNew-append out [] u a h = tt
AllNew-append out (t ∷ ts) u (q, a) h = (
  includes-append t u out q (ground (arith, h, text_eq_sym u t)),
  AllNew-append out ts u a (ground (arith, h)),
)

pushed_again :
    (t : Text) (out : List Text)
    → IsKept t
    → includes_tag t out ≡ false
    → push_tag (normalize_tag t) out ≡ out ++ t ∷ []
pushed_again t out k n = rw (normalize_tag-of_IsNormal t k.normal, k.full, n) refl

read_again :
    (ts out : List Text) → IsFilter ts → AllNew out ts → read_entries (map some ts) out ≡ out ++ ts
unfolding read_entries
read_again [] out f a = sym (append-nil out)
read_again (t ∷ ts) out ((k, ks), (q, d)) (n, a) =
    ap (read_entries (map some ts)) (pushed_again t out k n)
    ∙ (read_again ts (out ++ t ∷ []) (ks, d) (AllNew-append out ts t a q)
        ∙ append_assoc out (t ∷ []) ts)

AllNew-nil : (ts : List Text) → AllNew [] ts
AllNew-nil [] = tt
AllNew-nil (t ∷ ts) = (refl, AllNew-nil ts)

-- A filter that is set while the storage is there is what the next page reads from it.
pub read_stored-set_selected :
    (ts : List Text) (s : TagStore) → IsFilter ts → read_stored (set_selected true ts s).stored ≡ ts
unfolding read_stored set_selected
read_stored-set_selected [] s f = refl
read_stored-set_selected (t ∷ ts) s f = read_again (t ∷ ts) [] f (AllNew-nil (t ∷ ts))

includes-keep :
    (p : Text → Bool) (t : Text) (ts : List Text)
    → includes_tag t ts ≡ false
    → includes_tag t (keep_if p ts) ≡ false
includes-keep p t [] h = refl
includes-keep p t (x ∷ ts) h = ground (arith, h, includes-keep p t ts)

keep-IsFilter : (p : Text → Bool) (ts : List Text) → IsFilter ts → IsFilter (keep_if p ts)
keep-IsFilter p [] f = f
keep-IsFilter p (t ∷ ts) ((k, ks), (q, d)) = elim (Bool-cases (p t)) [
  | inl e ↦
      rw e ((let (a, b) = keep-IsFilter p ts (ks, d) in ((k, a), (includes-keep p t ts q, b))))
  | inr e ↦ rw e (keep-IsFilter p ts (ks, d))
]

-- A click on the pill of a normal tag keeps the filter fit for the server.
pub toggle_tag-IsFilter :
    (u : Text) (ts : List Text) → IsKept u → IsFilter ts → IsFilter (toggle_tag u ts)
unfolding toggle_tag
toggle_tag-IsFilter u ts k f = elim (Bool-cases (includes_tag u ts)) [
  | inl e ↦ rw e (keep-IsFilter (λ t. not (text_eq t u)) ts f)
  | inr e ↦ rw e (append-IsFilter u ts k e f)
]
