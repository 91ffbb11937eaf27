-- ===== src/Team/Order/Laws.antt =====
-- The order of a team's tasks.
use task_man.Prelude.{
  ◌≡◌, refl, ap, ◌∙◌, arith, inl, inr, Bool, true, false, List, [], ◌∷◌, if◌then◌else◌, get_or,
  length, keep_if, All, All-weaken, Bool-cases,
}
use task_man.Text.{Text, text_lt, is_empty}
use task_man.Api.Types.{TaskView}
use task_man.Team.Order.{
  Order, before, same, compare_text, is_open_task, compare_due, is_after, insert_due, by_due,
}

text_lt-asym : (s t : Text) → text_lt s t ≡ true → text_lt t s ≡ false
unfolding text_lt
text_lt-asym s [] h = ground (arith, h)
text_lt-asym [] (y ∷ t) h = refl
text_lt-asym (x ∷ s) (y ∷ t) h = ground (arith, h, text_lt-asym s t)

-- No text lies between texts that are not less than each other.
text_lt-cotrans : (s t u : Text) → text_lt t s ≡ false → text_lt u t ≡ false → text_lt u s ≡ false
unfolding text_lt
text_lt-cotrans [] t u h k = ground (arith, h, k)
text_lt-cotrans (x ∷ s) [] u h k = ground (arith, h, k)
text_lt-cotrans (x ∷ s) (y ∷ t) [] h k = ground (arith, h, k)
text_lt-cotrans (x ∷ s) (y ∷ t) (z ∷ u) h k = ground (arith, h, k, text_lt-cotrans s t u)

compare_due-flip : (a b : TaskView) → is_after (compare_due a b) ≡ true → compare_due b a ≡ before
unfolding compare_due
compare_due-flip a b h = ground (
  arith,
  h,
  text_lt-asym (get_or a.due_date []) (get_or b.due_date []),
  text_lt-asym (get_or b.due_date []) (get_or a.due_date []),
  text_lt-asym a.created_at b.created_at,
  text_lt-asym b.created_at a.created_at,
)

-- The comparison is consistent, as `sort` wants it.
pub compare_due_trans :
    (a b c : TaskView)
    → is_after (compare_due a b) ≡ false
    → is_after (compare_due b c) ≡ false
    → is_after (compare_due a c) ≡ false
unfolding compare_due
compare_due_trans a b c h k = ground (
  arith,
  h,
  k,
  compare_text-trans (get_or a.due_date []) (get_or b.due_date []) (get_or c.due_date []),
  compare_text-trans a.created_at b.created_at c.created_at,
)
  where
    compare_text-trans :
        (r s t : Text)
        → is_after (compare_text r s) ≡ false
        → is_after (compare_text s t) ≡ false
        → is_after (compare_text r t) ≡ false
    compare_text-trans r s t p q = ground (
      arith,
      p,
      q,
      text_lt-asym r s,
      text_lt-asym s t,
      text_lt-asym r t,
      text_lt-cotrans r s t,
      text_lt-cotrans t s r,
    )

-- No task stands before one that it comes after.
abbrev IsSorted : List TaskView → Type 0
IsSorted [] = Unit
IsSorted (t ∷ ts) = All (λ u. is_after (compare_due t u) ≡ false) ts × IsSorted ts

insert_due-All :
    (P : TaskView → Type 0) (t : TaskView) (us : List TaskView)
    → P t
    → All P us
    → All P (insert_due t us)
insert_due-All P t [] p h = (p, tt)
insert_due-All P t (u ∷ us) p (q, h) = elim (Bool-cases (is_after (compare_due t u))) [
  | inl e ↦ rw e (q, insert_due-All P t us p h)
  | inr e ↦ rw e (p, (q, h))
]

not_after :
    (a b : TaskView) → is_after (compare_due a b) ≡ true → is_after (compare_due b a) ≡ false
not_after a b h = ap is_after (compare_due-flip a b h)

insert_due-IsSorted : (t : TaskView) (us : List TaskView) → IsSorted us → IsSorted (insert_due t us)
insert_due-IsSorted t [] h = (tt, tt)
insert_due-IsSorted t (u ∷ us) (q, h) = elim (Bool-cases (is_after (compare_due t u))) [
  | inl e ↦ rw e (
    insert_due-All (λ v. is_after (compare_due u v) ≡ false) t us (not_after t u e) q,
    insert_due-IsSorted t us h,
  )
  | inr e ↦ rw e (
    (
      e,
      All-weaken (λ v. is_after (compare_due u v) ≡ false) (λ v. is_after (compare_due t v) ≡ false)
          (λ v k. compare_due_trans t u v e k) us q,
    ),
    (q, h),
  )
]

by_due-IsSorted : (ts : List TaskView) → IsSorted (by_due ts)
unfolding by_due
by_due-IsSorted [] = tt
by_due-IsSorted (t ∷ ts) = insert_due-IsSorted t (by_due ts) (by_due-IsSorted ts)

-- A test that no two tasks in the wrong order both pass.
abbrev pub IsLevel : (TaskView → Bool) → Type 0
IsLevel p = (a b : TaskView) → p a ≡ true → p b ≡ true → is_after (compare_due a b) ≡ false

insert_due-keep_if :
    (p : TaskView → Bool) (level : IsLevel p) (t : TaskView) (us : List TaskView)
    → keep_if p (insert_due t us) ≡ keep_if p (t ∷ us)
insert_due-keep_if p level t [] = refl
insert_due-keep_if p level t (u ∷ us) = elim (Bool-cases (is_after (compare_due t u))) [
  | inl e ↦ rw e (ground (arith, e, insert_due-keep_if p level t us, level t u))
  | inr e ↦ rw e refl
]

by_due-keep_if :
    (p : TaskView → Bool) (level : IsLevel p) (ts : List TaskView)
    → keep_if p (by_due ts) ≡ keep_if p ts
unfolding by_due
by_due-keep_if p level [] = refl
by_due-keep_if p level (t ∷ ts) =
    insert_due-keep_if p level t (by_due ts)
    ∙ ap (λ rest. if p t then t ∷ rest else rest) (by_due-keep_if p level ts)

insert_due-count :
    (p : TaskView → Bool) (t : TaskView) (us : List TaskView)
    → length (keep_if p (insert_due t us)) ≡ length (keep_if p (t ∷ us))
insert_due-count p t [] = refl
insert_due-count p t (u ∷ us) = elim (Bool-cases (is_after (compare_due t u))) [
  | inl e ↦ rw e (ground (arith, insert_due-count p t us))
  | inr e ↦ rw e refl
]

pub by_due-count :
    (p : TaskView → Bool) (ts : List TaskView)
    → length (keep_if p (by_due ts)) ≡ length (keep_if p ts)
unfolding by_due
by_due-count p [] = refl
by_due-count p (t ∷ ts) = insert_due-count p t (by_due ts) ∙ ground (arith, by_due-count p ts)

abbrev pub is_same : Order → Bool
is_same same = true
is_same _ = false

-- The tasks that the comparison takes for the same as one.
abbrev pub ties : TaskView → TaskView → Bool
ties x t = is_same (compare_due x t)

ties-IsLevel : (x : TaskView) → IsLevel (ties x)
ties-IsLevel x a b h k = compare_due_trans a x b back (ground (arith, k))
  where
    back : is_after (compare_due a x) ≡ false
    back = elim (Bool-cases (is_after (compare_due a x))) [
      | inl e ↦ ground (arith, h, compare_due-flip a x e)
      | inr e ↦ e
    ]

-- The order of the list, said without the comparison: no closed task stands before an open one; and of
-- two that are both open or both closed, one without a due date stands before none with one, none
-- stands before one that is due earlier, and of two without a due date none stands before one that was
-- created earlier.
pub record IsEarlier (t u : TaskView) : Type 0 where
  pub open_first : is_open_task u ≡ true → is_open_task t ≡ true
  pub dated_first :
      is_open_task t ≡ is_open_task u
      → is_empty (get_or u.due_date []) ≡ false
      → is_empty (get_or t.due_date []) ≡ false
  pub by_date :
      is_open_task t ≡ is_open_task u
      → is_empty (get_or u.due_date []) ≡ false
      → text_lt (get_or u.due_date []) (get_or t.due_date []) ≡ false
  pub by_creation :
      is_open_task t ≡ is_open_task u
      → is_empty (get_or t.due_date []) ≡ true
      → is_empty (get_or u.due_date []) ≡ true
      → text_lt u.created_at t.created_at ≡ false

abbrev pub IsInOrder : List TaskView → Type 0
IsInOrder [] = Unit
IsInOrder (t ∷ ts) = All (IsEarlier t) ts × IsInOrder ts

compare_due-IsEarlier : (t u : TaskView) → is_after (compare_due t u) ≡ false → IsEarlier t u
unfolding compare_due
compare_due-IsEarlier t u h = record {
  open_first = λ a. ground (arith, h, a);
  dated_first = λ a b. ground (arith, h, a, b);
  by_date =
      λ a b. ground (arith, h, a, b, text_lt-asym (get_or t.due_date []) (get_or u.due_date []));
  by_creation = λ a b c. ground (arith, h, a, b, c, text_lt-asym t.created_at u.created_at);
}

sorted-IsInOrder : (ts : List TaskView) → IsSorted ts → IsInOrder ts
sorted-IsInOrder [] h = tt
sorted-IsInOrder (t ∷ ts) (q, h) = (
  All-weaken (λ u. is_after (compare_due t u) ≡ false) (IsEarlier t) (compare_due-IsEarlier t) ts q,
  sorted-IsInOrder ts h,
)

-- Sorting by due date gives the open tasks before the closed ones, each by due date with the undated
-- ones after them by their creation, every task as often as before, and leaves those that are level
-- with any one task in their old order.
pub by_due-sorts :
    (ts : List TaskView)
    → IsInOrder (by_due ts)
      × ((p : TaskView → Bool) → length (keep_if p (by_due ts)) ≡ length (keep_if p ts))
      × ((x : TaskView) → keep_if (ties x) (by_due ts) ≡ keep_if (ties x) ts)
by_due-sorts ts = (
  sorted-IsInOrder (by_due ts) (by_due-IsSorted ts),
  λ p. by_due-count p ts,
  λ x. by_due-keep_if (ties x) (ties-IsLevel x) ts,
)
