-- ===== src/Api/Client.antt =====
-- ui/src/api.ts, lines 265 to 454: one request and its answer, the query string, and the endpoints.
-- `fetch`, `JSON.parse` and `encodeURIComponent` are not code of the program and are parameters.
use task_man.Prelude.{
  ℕ, Bool, true, false, not, ◌&&◌, List, [], ◌∷◌, ◌++◌, Option, none, some, if◌then◌else◌, leb,
  ◌==◌,
}
use task_man.Text.{Text, lit, is_empty, join}
use task_man.Text.Decimal.{show}

pub record Response : Type 0 where
  pub status : ℕ
  pub status_text : Text
  pub body : Text

-- `res.ok` of the Fetch standard.
abbrev pub is_ok : Response → Bool
is_ok r = leb 200 r.status && leb r.status 299

-- What `request` comes to: a value, `undefined`, an `ApiError`, or the error of `JSON.parse`.
pub data Result {ℓ} (A : Type ℓ) : Type ℓ where
  value : A → Result A
  no_value syntax_error : Result A
  api_error : ℕ → Text → Result A

-- The result, and whether the listeners of `onUnauthorized` were called.
pub record Answer {ℓ} (A : Type ℓ) : Type ℓ where
  pub dispatched : Bool
  pub result : Result A

-- `error_of` is `error` of a body that is JSON and has it.
abbrev pub message_of : (Text → Option Text) → Response → Text
message_of error_of r = elim (error_of r.body) [
  | some (c ∷ m) ↦ c ∷ m
  | _ ↦ if is_empty r.status_text then lit "HTTP " ++ show r.status else r.status_text
]

abbrev pub decoded {ℓ} : {A : Type ℓ} → Option A → Result A
decoded none = syntax_error
decoded (some x) = value x

unfoldable pub request {ℓ} :
    {A : Type ℓ} → (Text → Option Text) → (Text → Option A) → Bool → Response → Answer A
request error_of decode suppress r =
    if not (is_ok r)
    then record {
      dispatched = r.status == 401 && not suppress;
      result = api_error r.status (message_of error_of r);
    }
    else record {
      dispatched = false;
      result =
          if r.status == 204
          then no_value
          else if is_empty r.body
          then no_value
          else decoded (decode r.body);
    }

pub data Param : Type 0 where
  undefined : Param
  one : Text → Param
  many : List Text → Param

abbrev pub items_of : Param → List Text
items_of undefined = []
items_of (one v) = v ∷ []
items_of (many vs) = vs

module _ (encode : Text → Text) where
  -- The inner loop of `qs`.
  unfoldable pub push_items : Text → List Text → List Text → List Text
  push_items k [] parts = parts
  push_items k (v ∷ vs) parts =
      push_items k vs
        (if is_empty v then parts else parts ++ (encode k ++ (lit "=" ++ encode v)) ∷ [])

  unfoldable pub push_params : List (Text × Param) → List Text → List Text
  push_params [] parts = parts
  push_params ((k, v) ∷ ps) parts = push_params ps (push_items k (items_of v) parts)

  unfoldable pub qs : List (Text × Param) → Text
  qs ps = elim (push_params ps []) [ [] ↦ [] | p ∷ parts ↦ lit "?" ++ join (lit "&") (p ∷ parts) ]

pub record SearchParams : Type 0 where
  pub q : Param
  pub status : Param
  pub priority : Param
  pub horizon : Param
  pub team_id : Param
  pub assignee_id : Param
  pub overdue : Bool
  pub tags : Param

-- The calls of `api`, without the bodies, which are their other arguments as JSON.
pub data Endpoint : Type 0 where
  create_task reschedule restore_tasks list_teams create_team create_member : Endpoint
  get_task update_task delete_task add_note : Text → Endpoint
  edit_note delete_note : Text → Text → Endpoint
  summary : Text → Text → Param → Param → Endpoint
  day_view week_view month_view : Text → Param → Endpoint
  attention_view backlog : Param → Endpoint
  search : SearchParams → Endpoint
  update_team delete_team team_rollover : Text → Endpoint
  team_board : Text → Param → Endpoint
  team_history : Text → ℕ → ℕ → Param → Endpoint
  tags : Param → Param → Endpoint
  list_members : Param → Endpoint
  update_member delete_member enable_login reset_password : Text → Endpoint
  login logout me change_password : Endpoint

pub data Method : Type 0 where
  get post patch_method put_method delete_method : Method

abbrev pub method_of : Endpoint → Method
method_of create_task = post
method_of reschedule = post
method_of restore_tasks = post
method_of create_team = post
method_of create_member = post
method_of (update_task id) = patch_method
method_of (delete_task id) = delete_method
method_of (add_note id) = post
method_of (edit_note id note) = put_method
method_of (delete_note id note) = delete_method
method_of (update_team id) = patch_method
method_of (delete_team id) = delete_method
method_of (update_member id) = patch_method
method_of (delete_member id) = delete_method
method_of (enable_login id) = post
method_of (reset_password id) = post
method_of login = post
method_of logout = post
method_of change_password = post
method_of _ = get

-- `suppressAuthDispatch`.
abbrev pub suppresses : Endpoint → Bool
suppresses login = true
suppresses change_password = true
suppresses _ = false

module _ (encode : Text → Text) where
  abbrev tagged : Text → Param → Text
  tagged path tag = path ++ qs encode ((lit "tag", tag) ∷ [])

  unfoldable pub path_of : Endpoint → Text
  path_of create_task = lit "/tasks"
  path_of reschedule = lit "/tasks/reschedule"
  path_of restore_tasks = lit "/tasks/restore"
  path_of list_teams = lit "/teams"
  path_of create_team = lit "/teams"
  path_of create_member = lit "/members"
  path_of (get_task id) = lit "/tasks/" ++ id
  path_of (update_task id) = lit "/tasks/" ++ id
  path_of (delete_task id) = lit "/tasks/" ++ id
  path_of (add_note id) = lit "/tasks/" ++ (id ++ lit "/notes")
  path_of (edit_note id note) = lit "/tasks/" ++ (id ++ (lit "/notes/" ++ note))
  path_of (delete_note id note) = lit "/tasks/" ++ (id ++ (lit "/notes/" ++ note))
  path_of (summary from to team assignee) =
      lit "/summary"
      ++ qs encode (
          (lit "from", one from)
          ∷ (lit "to", one to)
          ∷ (lit "teamId", team)
          ∷ (lit "assigneeId", assignee)
          ∷ [])
  path_of (day_view date tag) =
      lit "/views/day" ++ qs encode ((lit "date", one date) ∷ (lit "tag", tag) ∷ [])
  path_of (week_view week tag) =
      lit "/views/week" ++ qs encode ((lit "week", one week) ∷ (lit "tag", tag) ∷ [])
  path_of (month_view month tag) =
      lit "/views/month" ++ qs encode ((lit "month", one month) ∷ (lit "tag", tag) ∷ [])
  path_of (attention_view tag) = tagged (lit "/views/attention") tag
  path_of (backlog tag) = tagged (lit "/backlog") tag
  path_of (search p) =
      lit "/search"
      ++ qs encode (
          (lit "q", p.q)
          ∷ (lit "status", p.status)
          ∷ (lit "priority", p.priority)
          ∷ (lit "horizon", p.horizon)
          ∷ (lit "teamId", p.team_id)
          ∷ (lit "assigneeId", p.assignee_id)
          ∷ (lit "overdue", if p.overdue then one (lit "true") else undefined)
          ∷ (lit "tag", p.tags)
          ∷ [])
  path_of (update_team id) = lit "/teams/" ++ id
  path_of (delete_team id) = lit "/teams/" ++ id
  path_of (team_rollover id) = lit "/teams/" ++ (id ++ lit "/rollover")
  path_of (team_board id tag) = lit "/teams/" ++ (id ++ tagged (lit "/board") tag)
  path_of (team_history id offset limit tag) =
      lit "/teams/"
      ++ (id
          ++ (lit "/history"
              ++ qs encode (
                  (lit "offset", one (show offset))
                  ∷ (lit "limit", one (show limit))
                  ∷ (lit "tag", tag)
                  ∷ [])))
  path_of (tags team status) =
      lit "/tags" ++ qs encode ((lit "teamId", team) ∷ (lit "status", status) ∷ [])
  path_of (list_members team) = lit "/members" ++ qs encode ((lit "teamId", team) ∷ [])
  path_of (update_member id) = lit "/members/" ++ id
  path_of (delete_member id) = lit "/members/" ++ id
  path_of (enable_login id) = lit "/members/" ++ (id ++ lit "/enable-login")
  path_of (reset_password id) = lit "/members/" ++ (id ++ lit "/reset-password")
  path_of login = lit "/auth/login"
  path_of logout = lit "/auth/logout"
  path_of me = lit "/auth/me"
  path_of change_password = lit "/auth/change-password"

-- A call of `api`, and the answer that its response makes.
abbrev pub call_api {ℓ} :
    {A : Type ℓ} → (Text → Option Text) → (Text → Option A) → Endpoint → Response → Answer A
call_api error_of decode e r = request error_of decode (suppresses e) r
