-- ===== src/Backlog/Groups.antt =====
-- The priority groups of the backlog.
use task_man.Prelude.{
  ℕ, ◌≡◌, refl, ap, ◌∙◌, ◌+◌, arith, inl, inr, Bool, true, not, List, [], ◌∷◌, ◌++◌, map, length,
  keep_if, All, Bool-cases,
}
use task_man.Api.Types.{Status, TaskView}
use task_man.Backlog.{
  PrioKey, prio_key, same_key, priority_groups, PrioGroup, group_of, is_shown, groups,
  is_completed_status, next_status,
}

-- How often a test holds of a list.
abbrev pub count_if : (TaskView → Bool) → List TaskView → ℕ
count_if p ts = length (keep_if p ts)

-- The tasks of the groups, one group after another.
abbrev pub grouped_tasks : List PrioGroup → List TaskView
grouped_tasks [] = []
grouped_tasks (g ∷ gs) = g.tasks ++ grouped_tasks gs

keep_if-append-length :
    (p : TaskView → Bool) (xs ys : List TaskView)
    → count_if p (xs ++ ys) ≡ count_if p xs + count_if p ys
keep_if-append-length p [] ys = omega arith
keep_if-append-length p (x ∷ xs) ys = ground (arith, keep_if-append-length p xs ys)

shown-grouped_tasks : (gs : List PrioGroup) → grouped_tasks (keep_if is_shown gs) ≡ grouped_tasks gs
shown-grouped_tasks [] = refl
shown-grouped_tasks (g ∷ gs) = shown g.tasks refl (shown-grouped_tasks gs)
  where
    shown :
        (ts : List TaskView)
        → g.tasks ≡ ts
        → grouped_tasks (keep_if is_shown gs) ≡ grouped_tasks gs
        → grouped_tasks (keep_if is_shown (g ∷ gs)) ≡ g.tasks ++ grouped_tasks gs
    shown [] e rest = rw e rest
    shown (t ∷ ts) e rest = rw e (ap (λ more. t ∷ ts ++ more) rest)

-- The tasks of a key, counted.
abbrev of_key : PrioKey → (TaskView → Bool) → List TaskView → ℕ
of_key k p ts = count_if p (keep_if (λ t. same_key (prio_key t.priority) k) ts)

abbrev all_keys : (TaskView → Bool) → List TaskView → ℕ
all_keys p ts =
    of_key PrioKey.high_key p ts
    + (of_key PrioKey.medium_key p ts
        + (of_key PrioKey.low_key p ts + of_key PrioKey.none_key p ts))

of_keys : (p : TaskView → Bool) (ts : List TaskView) → all_keys p ts ≡ count_if p ts
of_keys p [] = refl
of_keys p (t ∷ ts) = one (prio_key t.priority) refl (of_keys p ts)
  where
    one :
        (k : PrioKey)
        → prio_key t.priority ≡ k
        → all_keys p ts ≡ count_if p ts
        → all_keys p (t ∷ ts) ≡ count_if p (t ∷ ts)
    one PrioKey.high_key e rest = rw e (ground (arith, rest))
    one PrioKey.medium_key e rest = rw e (ground (arith, rest))
    one PrioKey.low_key e rest = rw e (ground (arith, rest))
    one PrioKey.none_key e rest = rw e (ground (arith, rest))

counted :
    (p : TaskView → Bool) (a b c d : List TaskView)
    → count_if p (a ++ (b ++ (c ++ (d ++ []))))
      ≡ count_if p a + (count_if p b + (count_if p c + count_if p d))
counted p a b c d =
    rw
      (
        keep_if-append-length p a (b ++ (c ++ (d ++ []))),
        keep_if-append-length p b (c ++ (d ++ [])),
        keep_if-append-length p c (d ++ []),
        keep_if-append-length p d [],
      )
      (omega arith)

same_key_lem : (a b : PrioKey) → same_key a b ≡ true → a ≡ b
same_key_lem a b h = ground (arith, h)

keep_if-key :
    (k : PrioKey) (ts : List TaskView) → All (λ t. prio_key t.priority ≡ k) (group_of ts k).tasks
keep_if-key k [] = tt
keep_if-key k (t ∷ ts) = elim (Bool-cases (same_key (prio_key t.priority) k)) [
  | inl e ↦ rw e (same_key_lem (prio_key t.priority) k e, keep_if-key k ts)
  | inr e ↦ rw e (keep_if-key k ts)
]

-- A group is shown only with tasks, all of its own priority.
abbrev pub IsGroup : PrioGroup → Type 0
IsGroup g = (is_shown g ≡ true) × All (λ t. prio_key t.priority ≡ g.key) g.tasks

shown-IsGroup :
    (ts : List TaskView) (ks : List PrioKey) → All IsGroup (keep_if is_shown (map (group_of ts) ks))
shown-IsGroup ts [] = tt
shown-IsGroup ts (k ∷ ks) = elim (Bool-cases (is_shown (group_of ts k))) [
  | inl e ↦ rw e ((e, keep_if-key k ts), shown-IsGroup ts ks)
  | inr e ↦ rw e (shown-IsGroup ts ks)
]

-- The groups hold each task as often as the list does, whatever test one counts by, and every group
-- has tasks, all of the group's priority.
pub groups-partition :
    (p : TaskView → Bool) (ts : List TaskView)
    → (count_if p (grouped_tasks (groups ts)) ≡ count_if p ts) × All IsGroup (groups ts)
unfolding groups
groups-partition p ts = (
  ap (count_if p) (shown-grouped_tasks (map (group_of ts) priority_groups))
      ∙ (counted p _ _ _ _ ∙ of_keys p ts),
  shown-IsGroup ts priority_groups,
)

-- Four clicks on a status control give the status back, and two move it between the active statuses
-- and the completed ones.
pub next_status-cycle :
    (s : Status)
    → (next_status (next_status (next_status (next_status s))) ≡ s)
      × (is_completed_status (next_status (next_status s)) ≡ not (is_completed_status s))
unfolding next_status is_completed_status
next_status-cycle Status.todo = (refl, refl)
next_status-cycle Status.in_progress = (refl, refl)
next_status-cycle Status.done = (refl, refl)
next_status-cycle Status.cancelled = (refl, refl)
