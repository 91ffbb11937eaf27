-- ===== src/Session.antt =====
-- ui/src/auth: the session (AuthContext.tsx), the login (LoginScreen.tsx), the forced change of the
-- password (ForcedChangeScreen.tsx) and its form (ChangePasswordForm.tsx).
pub mod Form
mod Kept
mod Tests
use task_man.Prelude.{Bool, true, false, List, [], ◌∷◌, ◌++◌, Option, none, some, if◌then◌else◌}
use task_man.Text.{Text, trim}
use task_man.Api.Types.{AuthUser}

pub data BootState : Type 0 where
  loading anonymous must_change authenticated : BootState

pub data AuthCall : Type 0 where
  me logout : AuthCall
  login : Text → Text → AuthCall

pub record Login : Type 0 where
  pub email : Text
  pub password : Text
  pub error : Option Text
  pub busy : Bool

abbrev pub empty_login : Login
empty_login = record { email = []; password = []; error = none; busy = false }

-- `login` is the state of the login's screen, which is mounted afresh whenever it comes up.
pub record Session : Type 0 where
  pub boot : BootState
  pub user : Option AuthUser
  pub login_form : Login
  pub sent : List AuthCall

abbrev pub send : AuthCall → Session → Session
send c s = record s { sent = s.sent ++ c ∷ [] }

abbrev pub login_after : BootState → Login → Login
login_after anonymous l = l
login_after _ l = empty_login

unfoldable pub bootstrap : Session → Session
bootstrap s = send me (record s { boot = loading; login_form = empty_login })

abbrev pub first_session : Session
first_session = record { boot = loading; user = none; login_form = empty_login; sent = me ∷ [] }

abbrev pub state_for : AuthUser → BootState
state_for u = if u.must_change_password then must_change else authenticated

-- The answer to `me`, and to the login.
unfoldable pub handle_authenticated : AuthUser → Session → Session
handle_authenticated u s = record s { user = some u; boot = state_for u; login_form = empty_login }

-- A failed `me`, and a 401 anywhere.
unfoldable pub go_anonymous : Session → Session
go_anonymous s = record s {
  user = none;
  boot = anonymous;
  login_form = login_after s.boot s.login_form;
}

unfoldable pub handle_password_changed : AuthUser → Session → Session
handle_password_changed u s = record s {
  user = some u;
  boot = authenticated;
  login_form = empty_login;
}

-- The forced change has its answer, for the user that its screen was shown for.
abbrev pub forced_changed : AuthUser → Session → Session
forced_changed u s = handle_password_changed (record u { must_change_password = false }) s

unfoldable pub log_out : Session → Session
log_out s = go_anonymous (send logout s)

unfoldable pub submit_login : Session → Session
submit_login s =
    if s.login_form.busy
    then s
    else send (login (trim s.login_form.email) s.login_form.password)
        (record s { login_form = record s.login_form { error = none; busy = true } })

unfoldable pub login_refused : Text → Session → Session
login_refused e s = record s { login_form = record s.login_form { error = some e; busy = false } }

-- What is on the screen.
pub data Screen : Type 0 where
  blank login_screen : Screen
  forced_screen shell : AuthUser → Screen

abbrev pub shell_of : Option AuthUser → Screen
shell_of none = blank
shell_of (some u) = shell u

abbrev pub forced_of : Option AuthUser → Screen
forced_of none = blank
forced_of (some u) = forced_screen u

unfoldable pub screen : BootState → Option AuthUser → Screen
screen loading u = blank
screen anonymous u = login_screen
screen must_change u = forced_of u
screen authenticated u = shell_of u
