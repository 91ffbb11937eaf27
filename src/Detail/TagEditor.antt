-- ===== src/Detail/TagEditor.antt =====
-- ui/src/components/TaskDetail.tsx: `TagsEditor`, the row of the tags in the panel of a task. `sent`
-- holds the lists that `onSave` was called with. The focus is not modelled.
use task_man.Prelude.{
  ℕ, ◌+◌, ◌==◌, ◌≡◌, Bool, true, false, not, ◌&&◌, ◌||◌, List, [], ◌∷◌, ◌++◌, keep_if, Option, none,
  some, if◌then◌else◌, get_or,
}
use task_man.Text.{Text, text_eq, is_empty, includes, trim, to_lower_case, split_where}

pub record TagEditor : Type 0 where
  pub draft : Text
  pub error : Option Text
  pub busy : Bool
  pub clears : Bool
  pub sent : List (List Text)

abbrev pub empty_editor : TagEditor
empty_editor = record { draft = []; error = none; busy = false; clears = false; sent = [] }

unfoldable pub save : List Text → Bool → TagEditor → TagEditor
save tags clear_draft s =
    if s.busy
    then s
    else record s { busy = true; error = none; clears = clear_draft; sent = s.sent ++ tags ∷ [] }

-- `fresh`: what is typed between commas, less the empty parts and the tags that are there.
unfoldable pub is_fresh : List Text → Text → Bool
is_fresh tags t = not (is_empty t) && not (includes tags t)

abbrev pub lowered : List Text → List Text
lowered [] = []
lowered (t ∷ ts) = to_lower_case (trim t) ∷ lowered ts

unfoldable pub fresh_tags : List Text → Text → List Text
fresh_tags tags draft = keep_if (is_fresh tags) (lowered (split_where (λ c. c == b',') draft))

abbrev pub save_fresh : List Text → List Text → TagEditor → TagEditor
save_fresh tags [] s = record s { draft = [] }
save_fresh tags (t ∷ ts) s = save (tags ++ t ∷ ts) true s

unfoldable pub add_pending : List Text → TagEditor → TagEditor
add_pending tags s =
    if is_empty (trim s.draft) || s.busy then s else save_fresh tags (fresh_tags tags s.draft) s

abbrev pub remove_tag : List Text → Text → TagEditor → TagEditor
remove_tag tags t s = save (keep_if (λ x. not (text_eq x t)) tags) false s

-- `tags.slice(0, -1)`
abbrev pub but_last : List Text → List Text
but_last [] = []
but_last (t ∷ []) = []
but_last (t ∷ u ∷ ts) = t ∷ but_last (u ∷ ts)

abbrev pub remove_last : List Text → TagEditor → TagEditor
remove_last [] s = s
remove_last (t ∷ ts) s = save (but_last (t ∷ ts)) false s

abbrev pub draft_typed : Text → TagEditor → TagEditor
draft_typed v s = record s { draft = v; error = none }

pub data TagKey : Type 0 where
  enter comma backspace other : TagKey

abbrev pub tag_key : List Text → TagKey → TagEditor → TagEditor
tag_key tags enter s = add_pending tags s
tag_key tags comma s = add_pending tags s
tag_key tags backspace s = if is_empty s.draft then remove_last tags s else s
tag_key tags other s = s

-- No tag is added on leaving while an error is shown.
abbrev pub draft_left : List Text → TagEditor → TagEditor
draft_left tags s =
    if not (is_empty (trim s.draft)) && is_empty (get_or s.error []) then add_pending tags s else s

unfoldable pub save_answered : TagEditor → TagEditor
save_answered s = record s { busy = false; draft = if s.clears then [] else s.draft }

unfoldable pub save_refused : Text → TagEditor → TagEditor
save_refused e s = record s { busy = false; error = some e }

-- The events, with the tags of the render.
pub data Event : Type 0 where
  type_draft : Text → Event
  press : List Text → TagKey → Event
  leave : List Text → Event
  click_remove : List Text → Text → Event

abbrev pub step : Event → TagEditor → TagEditor
step (type_draft v) s = draft_typed v s
step (press tags k) s = tag_key tags k s
step (leave tags) s = draft_left tags s
step (click_remove tags t) s = remove_tag tags t s

-- The states of the editor, with the number of the calls that are over; only a call that is awaited has
-- an answer.
pub data Reach : ℕ → TagEditor → Type 0 where
  start : Reach 0 empty_editor
  next : {n : ℕ} {s : TagEditor} → Reach n s → (e : Event) → Reach n (step e s)
  answered : {n : ℕ} {s : TagEditor} → Reach n s → s.busy ≡ true → Reach (n + 1) (save_answered s)
  refused :
      {n : ℕ} {s : TagEditor}
      → Reach n s
      → s.busy ≡ true
      → (e : Text) → Reach (n + 1) (save_refused e s)
