-- ===== src/Session/Kept.antt =====
-- What holds of the session, and of the form of a new password, at every moment.
use task_man.Prelude.{
  leb, ◌≡◌, refl, arith, inl, inr, Bool, true, false, not, ◌||◌, Option, none, some, if◌then◌else◌,
  length, All, All-append, Bool-cases,
}
use task_man.Text.{Text, is_empty}
use task_man.Api.Types.{AuthUser}
use task_man.Session.{
  BootState, loading, anonymous, must_change, authenticated, Session, first_session, bootstrap,
  handle_authenticated, go_anonymous, handle_password_changed, forced_changed, log_out,
  submit_login, login_refused, state_for, Screen, forced_screen, shell, screen,
}
use task_man.Session.Form.{
  PasswordForm, empty_form, can_submit, min_length, handle_submit, FormEvent, form_step,
  type_current, type_next, type_confirm, click_submit,
}

pub data Event : Type 0 where
  me_answer login_answer forced_answer : AuthUser → Event
  me_refusal unauthorized click_logout refresh click_login : Event
  type_email type_password login_refusal : Text → Event

abbrev pub step : Event → Session → Session
step (me_answer u) s = handle_authenticated u s
step (login_answer u) s = handle_authenticated u s
step (forced_answer u) s = forced_changed u s
step me_refusal s = go_anonymous s
step unauthorized s = go_anonymous s
step click_logout s = log_out s
step refresh s = bootstrap s
step click_login s = submit_login s
step (type_email v) s = record s { login_form = record s.login_form { email = v } }
step (type_password v) s = record s { login_form = record s.login_form { password = v } }
step (login_refusal e) s = login_refused e s

pub data Reach : Session → Type 0 where
  start : Reach first_session
  next : {s : Session} → Reach s → (e : Event) → Reach (step e s)

-- The user that goes with a state of the session.
abbrev pub HasFlag : Bool → Option AuthUser → Type 0
HasFlag b none = ⊥
HasFlag b (some u) = u.must_change_password ≡ b

abbrev pub Fits : BootState → Option AuthUser → Type 0
Fits loading o = Unit
Fits anonymous o = o ≡ none
Fits must_change o = HasFlag true o
Fits authenticated o = HasFlag false o

state_for-Fits : (u : AuthUser) → Fits (state_for u) (some u)
state_for-Fits u = elim (Bool-cases u.must_change_password) [
  | inl e ↦ rw e refl
  | inr e ↦ rw e refl
]

unless-Fits :
    (b : Bool) (s t : Session)
    → Fits s.boot s.user
    → Fits t.boot t.user
    → Fits (if b then s else t).boot (if b then s else t).user
unless-Fits true s t h k = h
unless-Fits false s t h k = k

step-Fits : (e : Event) (s : Session) → Fits s.boot s.user → Fits (step e s).boot (step e s).user
unfolding handle_authenticated handle_password_changed go_anonymous log_out bootstrap submit_login
    login_refused
step-Fits (me_answer u) s h = state_for-Fits u
step-Fits (login_answer u) s h = state_for-Fits u
step-Fits (forced_answer u) s h = refl
step-Fits me_refusal s h = refl
step-Fits unauthorized s h = refl
step-Fits click_logout s h = refl
step-Fits refresh s h = tt
step-Fits click_login s h = unless-Fits s.login_form.busy s _ h h
step-Fits (type_email v) s h = h
step-Fits (type_password v) s h = h
step-Fits (login_refusal e) s h = h

Reach-Fits : {s : Session} → Reach s → Fits s.boot s.user
Reach-Fits start = tt
Reach-Fits (next {s} r e) = step-Fits e s (Reach-Fits r)

-- What may be on the screen: the shell for a user who need not change the password, the forced change
-- for one who must, and nothing else of a user.
abbrev pub IsLocked : Screen → Type 0
IsLocked (shell u) = u.must_change_password ≡ false
IsLocked (forced_screen u) = u.must_change_password ≡ true
IsLocked _ = Unit

screen-IsLocked : (b : BootState) (o : Option AuthUser) → Fits b o → IsLocked (screen b o)
unfolding screen
screen-IsLocked loading o h = tt
screen-IsLocked anonymous o h = tt
screen-IsLocked must_change none h = tt
screen-IsLocked must_change (some u) h = h
screen-IsLocked authenticated none h = tt
screen-IsLocked authenticated (some u) h = h

-- In every state that the session reaches, the shell is shown only to a user who need not change the
-- password, and the forced change only to one who must.
pub Reach-IsLocked : {s : Session} → Reach s → IsLocked (screen s.boot s.user)
Reach-IsLocked {s} r = screen-IsLocked s.boot s.user (Reach-Fits r)

-- The form.
pub data FormReach : PasswordForm → Type 0 where
  mounted : FormReach empty_form
  later : {f : PasswordForm} → FormReach f → (e : FormEvent) → FormReach (form_step e f)

abbrev pub IsAllowed : Text × Text → Type 0
IsAllowed p = (is_empty p.0 ≡ false) × (leb min_length (length p.1) ≡ true)

submit-IsAllowed : (f : PasswordForm) → All IsAllowed f.sent → All IsAllowed (handle_submit f).sent
unfolding handle_submit
submit-IsAllowed f h = elim (Bool-cases (f.busy || not (can_submit f))) [
  | inl e ↦ rw e h
  | inr e ↦ rw e (All-append IsAllowed f.sent _ h ((ground (arith, e), ground (arith, e)), tt))
]

-- The form never sends a new password of fewer than eight units, nor one without the current password.
pub FormReach-IsAllowed : {f : PasswordForm} → FormReach f → All IsAllowed f.sent
FormReach-IsAllowed mounted = tt
FormReach-IsAllowed (later {f} r (type_current v)) = FormReach-IsAllowed r
FormReach-IsAllowed (later {f} r (type_next v)) = FormReach-IsAllowed r
FormReach-IsAllowed (later {f} r (type_confirm v)) = FormReach-IsAllowed r
FormReach-IsAllowed (later {f} r click_submit) = submit-IsAllowed f (FormReach-IsAllowed r)
FormReach-IsAllowed (later {f} r FormEvent.answer) = FormReach-IsAllowed r
FormReach-IsAllowed (later {f} r (FormEvent.refusal e)) = FormReach-IsAllowed r
