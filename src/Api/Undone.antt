-- ===== src/Api/Undone.antt =====
-- What it is for a batch of patches to be taken back by another, as the undo of the views' bulk actions
-- does: said of the calls alone, whatever else the server does to a task.
use task_man.Prelude.{
  ◌≡◌, refl, Bool, true, false, ◌||◌, List, [], ◌∷◌, map, Option, none, some, get_or, All,
}
use task_man.Text.{Text}
use task_man.Api.Types.{Recurrence, TaskView, Change, absent, null, put, UpdateTaskInput}
use task_man.Api.Requests.{Request, update_task}

abbrev pub touched {ℓ} : {A : Type ℓ} → Change A → Bool
touched absent = false
touched null = true
touched (put x) = true

-- A field is given its old value, where the action has changed it and only there or with that value.
abbrev pub Back : {A : Type 0} → Bool → Change A → A → Type 0
Back true absent old = ⊥
Back false absent old = Unit
Back b null old = ⊥
Back b (put x) old = x ≡ old

-- The same for an optional text: none and the empty text are one value.
abbrev pub BackText : Bool → Change Text → Option Text → Type 0
BackText true absent old = ⊥
BackText false absent old = Unit
BackText b null old = get_or old [] ≡ []
BackText b (put x) old = x ≡ get_or old []

abbrev pub BackRecurrence : Bool → Change Recurrence → Option Recurrence → Type 0
BackRecurrence true absent old = ⊥
BackRecurrence false absent old = Unit
BackRecurrence b null old = old ≡ none
BackRecurrence b (put r) old = old ≡ some r

-- The week that the server keeps for a team's task: left out only where the task had none.
abbrev pub BackWeek : Bool → Change Text → Option Text → Type 0
BackWeek true absent old = get_or old [] ≡ []
BackWeek b c old = BackText b c old

-- The patches after which the server may have another week for the task: of its team, of its status
-- and of the week itself.
abbrev pub moves_week : UpdateTaskInput → Bool
moves_week p = touched p.week_of || touched p.team_id || touched p.status

-- The second patch gives every field that the first one changes the value that the task had, and no
-- field another value.
pub record TakesBack (p q : UpdateTaskInput) (t : TaskView) : Type 0 where
  pub title : Back (touched p.title) q.title t.title
  pub notes : BackText (touched p.notes) q.notes t.notes
  pub horizon : Back (touched p.horizon) q.horizon t.horizon
  pub period : Back (touched p.period) q.period t.period
  pub due_date : BackText (touched p.due_date) q.due_date t.due_date
  pub status : Back (touched p.status) q.status t.status
  pub priority : Back (touched p.priority) q.priority t.priority
  pub parent_id : BackText (touched p.parent_id) q.parent_id t.parent_id
  pub team_id : BackText (touched p.team_id) q.team_id t.team_id
  pub assignee_id : BackText (touched p.assignee_id) q.assignee_id t.assignee_id
  pub recurrence : BackRecurrence (touched p.recurrence) q.recurrence t.recurrence
  pub week_of : BackWeek (moves_week p) q.week_of t.week_of
  pub tags : Back (touched p.tags) q.tags t.tags

-- One call for each task, and one that takes it back.
abbrev pub Undoes : List TaskView → List Request → List Request → Type 0
Undoes [] [] [] = Unit
Undoes (t ∷ ts) (update_task i p ∷ calls) (update_task j q ∷ undo) =
    (i ≡ t.id) × (j ≡ t.id) × TakesBack p q t × Undoes ts calls undo
Undoes _ _ _ = ⊥

abbrev pub ids_of_tasks : List TaskView → List Text
ids_of_tasks ts = map (λ t. t.id) ts

-- One patch for each task of the list.
abbrev pub patches : (TaskView → UpdateTaskInput) → List TaskView → List Request
patches f ts = map (λ t. update_task t.id (f t)) ts

pub patches-Undoes :
    (f g : TaskView → UpdateTaskInput) (ts : List TaskView)
    → All (λ t. TakesBack (f t) (g t) t) ts
    → Undoes ts (patches f ts) (patches g ts)
patches-Undoes f g [] h = tt
patches-Undoes f g (t ∷ ts) (b, h) = (refl, refl, b, patches-Undoes f g ts h)

pub All-of {ℓ κ} : {A : Type ℓ} (P : A → Type κ) → ((x : A) → P x) → (xs : List A) → All P xs
All-of P f [] = tt
All-of P f (x ∷ xs) = (f x, All-of P f xs)
