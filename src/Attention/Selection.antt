-- ===== src/Attention/Selection.antt =====
-- AttentionView.tsx, lines 223 to 286: the view's state, its reload and the selection.
use task_man.Prelude.{
  ℕ, Bool, false, not, ◌&&◌, List, [], ◌∷◌, ◌++◌, map, Option, none, some, if◌then◌else◌, all_of,
  keep_if,
}
use task_man.Text.{Text, text_eq}
unfoldable pub use task_man.Picks.{
  has, set_add, set_delete, add_all, delete_all, is_none_left, toggled, section_toggled,
}
pub use task_man.Api.Requests.{
  Request, attention_view, reschedule, update_task, delete_task, restore_tasks,
}
use task_man.Api.Types.{Horizon, Status, TaskView, AttentionViewResponse}

-- What the bulk actions remember for their undo.
pub record Slot : Type 0 where
  pub id : Text
  pub period : Text
  pub due_date : Text

pub record StatusSlot : Type 0 where
  pub id : Text
  pub status : Status

pub record TeamSlot : Type 0 where
  pub team_id : Text
  pub assignee_id : Option Text
  pub week_of : Option Text

pub record BacklogSlot : Type 0 where
  pub id : Text
  pub horizon : Horizon
  pub period : Text
  pub due_date : Text
  pub team : Option TeamSlot

-- A bulk action that waits for its answer, with what its undo needs.
pub data Bulk : Type 0 where
  rescheduling : ℕ → List Slot → Bulk
  scheduling : Text → List Slot → Bulk
  marking : List StatusSlot → Bulk
  deleting : ℕ → Bulk
  moving : ℕ → List BacklogSlot → Bulk

-- The waiting action, and the tag filter of the render that started it.
pub record Running : Type 0 where
  pub bulk : Bulk
  pub tags : List Text

-- `none` is the message of a label that has no text.
pub record Toast : Type 0 where
  pub message : Option Text
  pub undo : List Request

-- `sent` logs the calls of the server, `changes` counts those of `notifyTasksChanged`.
pub record Attention : Type 0 where
  pub data_shown : Option AttentionViewResponse
  pub error : Option Text
  pub selected : List Text
  pub busy : Bool
  pub selected_id : Option Text
  pub schedule_date : Text
  pub tags : List Text
  pub toast : Option Toast
  pub running : Option Running
  pub sent : List Request
  pub changes : ℕ

abbrev pub fresh : List Text → Attention
fresh tags = record {
  data_shown = none;
  error = none;
  selected = [];
  busy = false;
  selected_id = none;
  schedule_date = [];
  tags = tags;
  toast = none;
  running = none;
  sent = attention_view tags ∷ [];
  changes = 0;
}

abbrev pub send : List Request → Attention → Attention
send rs s = record s { sent = s.sent ++ rs }

-- `reload` of a render with these tags.
unfoldable pub reload : List Text → Attention → Attention
reload tags s = send (attention_view tags ∷ []) (record s { error = none })

abbrev pub ids_of : AttentionViewResponse → List Text
ids_of d = map (λ t. t.id) (d.overdue ++ d.slipped)

-- The answer to `reload`.
unfoldable pub loaded : AttentionViewResponse → Attention → Attention
loaded d s = record s {
  data_shown = some d;
  selected = keep_if (λ id. has id (ids_of d)) s.selected;
}

-- `taskById.get(id)`: the map is filled in order, and a later task takes an earlier one's place.
abbrev pub map_get : Text → List TaskView → Option TaskView → Option TaskView
map_get id [] found = found
map_get id (t ∷ ts) found = map_get id ts (if text_eq t.id id then some t else found)

abbrev pub tasks_of : Option AttentionViewResponse → List TaskView
tasks_of none = []
tasks_of (some d) = d.overdue ++ d.slipped

unfoldable pub task_by_id : Attention → Text → Option TaskView
task_by_id s id = map_get id (tasks_of s.data_shown) none

abbrev pub all_ids : Attention → List Text
all_ids s = map (λ t. t.id) (tasks_of s.data_shown)

unfoldable pub all_selected : Attention → Bool
all_selected s = not (is_none_left (all_ids s)) && all_of (λ id. has id s.selected) (all_ids s)

unfoldable pub dismiss_toast : Attention → Attention
dismiss_toast s = record s { toast = none }

unfoldable pub toggle : Text → Attention → Attention
toggle id s =
    let shown = if is_none_left s.selected then dismiss_toast s else s in
    record shown { selected = toggled id s.selected }

abbrev pub toggle_section_all : List Text → Attention → Attention
toggle_section_all ids s = record s { selected = section_toggled ids s.selected }

unfoldable pub toggle_select_all : Attention → Attention
toggle_select_all s = record s { selected = if all_selected s then [] else add_all (all_ids s) [] }

abbrev pub fail : Text → Attention → Attention
fail e s = record s { error = some e }
