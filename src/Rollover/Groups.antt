-- ===== src/Rollover/Groups.antt =====
-- The groups of weeks that the rollover shows.
use task_man.Prelude.{
  ◌≡◌, refl, sym, ap, ◌∙◌, inl, inr, false, List, [], ◌∷◌, ◌++◌, append_assoc, append-nil,
  Bool-cases, All, All-append,
}
use task_man.Text.{Text, text_eq}
use task_man.Text.Laws.{text_eq_iff}
use task_man.Api.Types.{TaskView}
use task_man.Rollover.{WeekGroup, week_or_empty, add_row, groups_from}

-- The rows of the groups, one group after another.
abbrev pub rows_of : List WeekGroup → List TaskView
rows_of [] = []
rows_of (g ∷ gs) = g.rows ++ rows_of gs

-- Every row has its group's week.
abbrev pub SameWeek : WeekGroup → Type 0
SameWeek g = All (λ t. week_or_empty t ≡ g.week) g.rows

-- A group that follows another has another week.
abbrev pub ApartFrom : Text → List WeekGroup → Type 0
ApartFrom w [] = Unit
ApartFrom w (g ∷ gs) = text_eq w g.week ≡ false

abbrev pub Apart : List WeekGroup → Type 0
Apart [] = Unit
Apart (g ∷ gs) = ApartFrom g.week gs × Apart gs

rows_of-add_row :
    (t : TaskView) (out : List WeekGroup) → rows_of (add_row t out) ≡ rows_of out ++ t ∷ []
rows_of-add_row t [] = refl
rows_of-add_row t (g ∷ []) = elim (Bool-cases (text_eq g.week (week_or_empty t))) [
  | inl e ↦ rw e (simp append-nil)
  | inr e ↦ rw e (simp append-nil)
]
rows_of-add_row t (g ∷ h ∷ gs) =
    ap (λ rest. g.rows ++ rest) (rows_of-add_row t (h ∷ gs))
    ∙ sym (append_assoc g.rows (rows_of (h ∷ gs)) (t ∷ []))

add_row-SameWeek :
    (t : TaskView) (out : List WeekGroup) → All SameWeek out → All SameWeek (add_row t out)
add_row-SameWeek t [] h = ((refl, tt), tt)
add_row-SameWeek t (g ∷ []) (q, h) = elim (Bool-cases (text_eq g.week (week_or_empty t))) [
  | inl e ↦ rw e (
    All-append (λ u. week_or_empty u ≡ g.week) g.rows (t ∷ []) q
        (sym ((text_eq_iff g.week (week_or_empty t)).0 e), tt),
    tt,
  )
  | inr e ↦ rw e (q, ((refl, tt), tt))
]
add_row-SameWeek t (g ∷ k ∷ gs) (q, h) = (q, add_row-SameWeek t (k ∷ gs) h)

add_row-ApartFrom :
    (t : TaskView) (w : Text) (g : WeekGroup) (gs : List WeekGroup)
    → ApartFrom w (g ∷ gs)
    → ApartFrom w (add_row t (g ∷ gs))
add_row-ApartFrom t w g [] h = elim (Bool-cases (text_eq g.week (week_or_empty t))) [
  | inl e ↦ rw e h
  | inr e ↦ rw e h
]
add_row-ApartFrom t w g (k ∷ gs) h = h

add_row-Apart : (t : TaskView) (out : List WeekGroup) → Apart out → Apart (add_row t out)
add_row-Apart t [] h = (tt, tt)
add_row-Apart t (g ∷ []) h = elim (Bool-cases (text_eq g.week (week_or_empty t))) [
  | inl e ↦ rw e (tt, tt)
  | inr e ↦ rw e (e, (tt, tt))
]
add_row-Apart t (g ∷ k ∷ gs) (q, h) =
    (add_row-ApartFrom t g.week k gs q, add_row-Apart t (k ∷ gs) h)

grouped :
    (ts : List TaskView) (out : List WeekGroup)
    → All SameWeek out
    → Apart out
    → (rows_of (groups_from ts out) ≡ rows_of out ++ ts)
      × All SameWeek (groups_from ts out)
      × Apart (groups_from ts out)
unfolding groups_from
grouped [] out h a = (sym (append-nil (rows_of out)), h, a)
grouped (t ∷ ts) out h a =
    let (rows, weeks, apart) =
      grouped ts (add_row t out) (add_row-SameWeek t out h) (add_row-Apart t out a) in
    (
      rows ∙ (ap (λ r. r ++ ts) (rows_of-add_row t out) ∙ append_assoc (rows_of out) (t ∷ []) ts),
      weeks,
      apart,
    )

-- The groups hold the tasks in their order, every task in a group of its own week, and no group
-- follows another of the same week.
pub groups_from-grouped :
    (ts : List TaskView)
    → (rows_of (groups_from ts []) ≡ ts)
      × All SameWeek (groups_from ts [])
      × Apart (groups_from ts [])
groups_from-grouped ts = grouped ts [] tt tt
