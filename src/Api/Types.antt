-- ===== src/Api/Types.antt =====
-- The data types of ui/src/api.ts, lines 1 to 256: what the server sends and takes.
-- Identifiers, names, periods and dates are texts; an optional field is an `Option`.
use Prim.Native.Nat.{ℕ}
use mathlib.Core.Bool.{Bool}
use mathlib.Core.Option.{Option}
use mathlib.Core.List.{List}
use task_man.Text.{Text}

pub data Horizon : Type 0 where
  daily weekly monthly backlog : Horizon

pub data Status : Type 0 where
  todo in_progress done cancelled : Status

-- `no_priority` is the empty text. `inherited` is no priority of the type: it is a member that the
-- object behind a lookup table inherits, which the lookup by a typed word can return.
pub data Priority : Type 0 where
  no_priority low medium high : Priority
  inherited : Text → Priority

pub data RecurrenceFreq : Type 0 where
  daily weekdays weekly monthly : RecurrenceFreq

pub data SystemRole : Type 0 where
  admin user : SystemRole

pub record Recurrence : Type 0 where
  pub freq : RecurrenceFreq
  pub interval : Option ℕ
  pub anchor : Option Text
  pub weekdays : Option (List ℕ)
  pub day_of_month : Option ℕ

pub data ActivityKind : Type 0 where
  note status : ActivityKind

pub record ActivityEntry : Type 0 where
  pub id : Text
  pub kind : ActivityKind
  pub date : Text
  pub at : Text
  pub by : Option Text
  pub by_name : Option Text
  pub text : Option Text
  pub from : Option Text
  pub to : Option Text
  pub edited_at : Option Text

pub record Progress : Type 0 where
  pub done : ℕ
  pub total : ℕ

pub record TaskView : Type 0 where
  pub id : Text
  pub title : Text
  pub notes : Option Text
  pub horizon : Horizon
  pub period : Text
  pub due_date : Option Text
  pub status : Status
  pub priority : Priority
  pub parent_id : Option Text
  pub team_id : Option Text
  pub assignee_id : Option Text
  pub recurrence : Option Recurrence
  pub series_id : Option Text
  pub created_at : Text
  pub updated_at : Text
  pub completed_at : Option Text
  pub progress : Progress
  pub week_of : Option Text
  pub activity : Option (List ActivityEntry)
  pub tags : List Text

pub record Member : Type 0 where
  pub id : Text
  pub name : Text
  pub email : Option Text
  pub role : Option Text
  pub team_ids : Option (List Text)
  pub created_at : Text
  pub system_role : Option SystemRole
  pub disabled : Option Bool

pub record CreateTaskInput : Type 0 where
  pub title : Text
  pub notes : Option Text
  pub horizon : Horizon
  pub period : Text
  pub due_date : Option Text
  pub status : Option Status
  pub priority : Option Priority
  pub parent_id : Option Text
  pub team_id : Option Text
  pub assignee_id : Option Text
  pub recurrence : Option Recurrence
  pub tags : Option (List Text)

-- A field of a partial update: left out, `null`, or a value.
pub data Change {ℓ} (A : Type ℓ) : Type ℓ where
  absent null : Change A
  put : A → Change A

pub record UpdateTaskInput : Type 0 where
  pub title : Change Text
  pub notes : Change Text
  pub horizon : Change Horizon
  pub period : Change Text
  pub due_date : Change Text
  pub status : Change Status
  pub priority : Change Priority
  pub parent_id : Change Text
  pub team_id : Change Text
  pub assignee_id : Change Text
  pub recurrence : Change Recurrence
  pub week_of : Change Text
  pub tags : Change (List Text)

pub record AttentionViewResponse : Type 0 where
  pub overdue : List TaskView
  pub slipped : List TaskView

pub record SummaryTask : Type 0 where
  pub id : Text
  pub title : Text
  pub status : Status
  pub priority : Priority
  pub horizon : Horizon
  pub due_date : Option Text
  pub team_id : Option Text
  pub team_name : Option Text
  pub assignee_id : Option Text
  pub assignee_name : Option Text
  pub created_at : Text
  pub closed_date : Option Text
  pub overdue : Bool
  pub notes : List ActivityEntry

pub record SummaryResponse : Type 0 where
  pub from : Text
  pub to : Text
  pub team_id : Option Text
  pub team_name : Option Text
  pub assignee_id : Option Text
  pub assignee_name : Option Text
  pub completed : List SummaryTask
  pub updated : List SummaryTask
  pub added : List SummaryTask

pub record Team : Type 0 where
  pub id : Text
  pub name : Text
  pub created_at : Text
  pub member_count : Option ℕ
  pub open_count : Option ℕ
  pub overdue_count : Option ℕ

pub record MemberTasks : Type 0 where
  pub member : Member
  pub tasks : List TaskView

pub record TeamBoardResponse : Type 0 where
  pub team : Team
  pub members : List MemberTasks
  pub unassigned : List TaskView
  pub week : Text
  pub stale_open : ℕ

pub record RolloverResponse : Type 0 where
  pub week : Text
  pub tasks : List TaskView

pub record HistoryResponse : Type 0 where
  pub tasks : List TaskView
  pub has_more : Bool

pub record AuthUser : Type 0 where
  pub id : Text
  pub name : Text
  pub email : Text
  pub system_role : SystemRole
  pub must_change_password : Bool
  pub teams : List (Text × Text)
