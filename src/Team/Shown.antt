-- ===== src/Team/Shown.antt =====
-- What the page of a team shows of the board.
use task_man.Prelude.{
  ℕ, ◌≡◌, refl, ap, ◌∙◌, ◌+◌, arith, Bool, not, List, [], ◌∷◌, map, Option, none, some, length,
  find_if, keep_if,
}
use task_man.Text.{Text, text_eq, to_lower_case, starts_with}
use task_man.Period.{Now}
use task_man.Api.Types.{TaskView, Member, MemberTasks, TeamBoardResponse}
use task_man.Composer.Draft.{only_id, resolve_assignee_name}
use task_man.Team.Order.{is_open_task}
use task_man.Team.Order.Laws.{by_due-count}
use task_man.Team.{
  visible_tasks, visible_active, visible_completed, task_overdue, overdue_rows, scheduled_rows,
  only_member, resolve_assignee,
}

abbrev pub counted_by : (TaskView → Bool) → List TaskView → ℕ
counted_by p ts = length (keep_if p ts)

parted :
    (p q : TaskView → Bool) (ts : List TaskView)
    → counted_by p (keep_if q ts) + counted_by p (keep_if (λ t. not (q t)) ts) ≡ counted_by p ts
parted p q [] = omega arith
parted p q (t ∷ ts) = ground (arith, parted p q ts)

-- The overdue rows, the scheduled rows and the completed ones hold each visible task as often as the
-- board does, whatever test one counts by.
pub rows-partition :
    (p : TaskView → Bool) (now : Now) (b : Option TeamBoardResponse) (f : Option Text)
    → counted_by p (overdue_rows now b f)
        + (counted_by p (scheduled_rows now b f) + counted_by p (visible_completed b f))
      ≡ counted_by p (visible_tasks b f)
unfolding overdue_rows scheduled_rows
rows-partition p now b f = omega (
  arith,
  by_due-count p (keep_if (task_overdue now) (visible_active b f)),
  by_due-count p (keep_if (λ t. not (task_overdue now t)) (visible_active b f)),
  parted p (task_overdue now) (visible_active b f),
  parted p is_open_task (visible_tasks b f),
)

abbrev found_id : Option MemberTasks → Option Text → Option Text
found_id none o = o
found_id (some m) o = some m.member.id

abbrev found_member : Option Member → Option Text → Option Text
found_member none o = o
found_member (some m) o = some m.id

find_if-member :
    (q : Member → Bool) (ms : List MemberTasks) (o : Option Text)
    → found_id (find_if (λ (m : MemberTasks). q m.member) ms) o
      ≡ found_member (find_if q (map (λ (m : MemberTasks). m.member) ms)) o
find_if-member q [] o = refl
find_if-member q (m ∷ ms) o = ground (arith, find_if-member q ms o)

keep_if-member :
    (q : Member → Bool) (ms : List MemberTasks)
    → map (λ (m : MemberTasks). m.member) (keep_if (λ (m : MemberTasks). q m.member) ms)
      ≡ keep_if q (map (λ (m : MemberTasks). m.member) ms)
keep_if-member q [] = refl
keep_if-member q (m ∷ ms) = ground (arith, keep_if-member q ms)

only_member-only_id :
    (ms : List MemberTasks) → only_member ms ≡ only_id (map (λ (m : MemberTasks). m.member) ms)
only_member-only_id [] = refl
only_member-only_id (m ∷ []) = refl
only_member-only_id (m ∷ n ∷ ms) = refl

elim-found_id :
    (o : Option MemberTasks) (x : Option Text)
    → (elim o as (λ p. Option Text) [ some e ↦ some e.member.id | none ↦ x ]) ≡ found_id o x
elim-found_id none x = refl
elim-found_id (some m) x = refl

found_member-elim :
    (o : Option Member) (x : Option Text)
    → found_member o x ≡ (elim o as (λ p. Option Text) [ some e ↦ some e.id | none ↦ x ])
found_member-elim none x = refl
found_member-elim (some m) x = refl

-- The page of a team and the composer, which have the code twice, resolve a typed name to the same
-- member.
pub resolve_assignee-resolve_assignee_name :
    (name : Option Text) (b : TeamBoardResponse)
    → resolve_assignee name (some b)
      ≡ resolve_assignee_name name (map (λ (m : MemberTasks). m.member) b.members)
unfolding resolve_assignee resolve_assignee_name
resolve_assignee-resolve_assignee_name none b = refl
resolve_assignee-resolve_assignee_name (some []) b = refl
resolve_assignee-resolve_assignee_name (some (c ∷ s)) b =
    let n = to_lower_case (c ∷ s) in
    let exact : Member → Bool = λ m. text_eq (to_lower_case m.name) n in
    let near : Member → Bool = λ m. starts_with (to_lower_case m.name) n in
    elim-found_id (find_if (λ (m : MemberTasks). exact m.member) b.members) _
    ∙ (find_if-member exact b.members _
        ∙ (ap (λ o. found_member (find_if exact (map (λ (m : MemberTasks). m.member) b.members)) o)
              (only_member-only_id (keep_if (λ (m : MemberTasks). near m.member) b.members)
                ∙ ap only_id (keep_if-member near b.members))
            ∙ found_member-elim (find_if exact (map (λ (m : MemberTasks). m.member) b.members)) _))
