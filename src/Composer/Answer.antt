-- ===== src/Composer/Answer.antt =====
-- What the server's answer does to the draft.
use task_man.Prelude.{◌≡◌, refl, sym, subst, arith, true, false, List, [], ◌∷◌, Option, none}
use task_man.Text.{Text, trim, trim_start, trim_end}
use task_man.Composer.Draft.{
  Props, Pending, fast, from_draft, card, Composer, clear_draft, flash_created, draft_field_count,
}
use task_man.Composer.Create.{created, settle_one, settle}

-- What a success leaves, by the path that made the call.
abbrev pub After : Props → Pending → Composer → Composer → Type 0
After props fast s t =
    (t.title ≡ [])
    × (t.expanded ≡ s.expanded)
    × (t.notes ≡ s.notes)
    × (draft_field_count props t ≡ draft_field_count props s)
After props from_draft s t =
    (t.title ≡ []) × (t.expanded ≡ s.expanded) × (draft_field_count props t ≡ 0)
After props (card true) s t =
    (t.title ≡ [])
    × (t.expanded ≡ s.expanded)
    × (t.assignee_id ≡ s.assignee_id)
    × (t.due ≡ s.due)
    × (t.priority ≡ s.priority)
    × (t.repeat ≡ s.repeat)
    × (t.tags ≡ [])
    × (t.notes ≡ [])
After props (card false) s t =
    (t.title ≡ []) × (t.expanded ≡ false) × (draft_field_count props t ≡ 0)

settle-eq :
    (answer : Option Text) (how : Pending) (rest : List Pending) (s : Composer)
    → s.pending ≡ how ∷ rest
    → settle answer s ≡ settle_one answer how rest s
unfolding settle
settle-eq answer how rest s e = ground arith

empty_trim : trim [] ≡ []
unfolding trim trim_start trim_end
empty_trim = refl

settle_one-After :
    (props : Props) (how : Pending) (rest : List Pending) (s : Composer)
    → After props how s (settle_one none how rest s)
unfolding settle_one created clear_draft flash_created draft_field_count
settle_one-After props fast rest s = (refl, refl, refl, refl)
settle_one-After props from_draft rest s = (refl, refl, ground (arith, empty_trim))
settle_one-After props (card true) rest s = (refl, refl, refl, refl, refl, refl, refl, refl)
settle_one-After props (card false) rest s = (refl, refl, ground (arith, empty_trim))

-- When the call that waits first has succeeded, the title is empty; a draft that was read is gone, but that a card set to create
-- more keeps its assignee, date, priority and repeat; the path that reads the title alone leaves
-- the other fields. A card not set to create more is collapsed.
pub settle-success :
    (props : Props) (how : Pending) (rest : List Pending) (s : Composer)
    → s.pending ≡ how ∷ rest
    → After props how s (settle none s)
settle-success props how rest s e =
    subst (λ t. After props how s t) (sym (settle-eq none how rest s e))
      (settle_one-After props how rest s)
