-- ===== src/Session/Tests.antt =====
-- A run of the session, and the witnesses of its theorems.
use task_man.Prelude.{◌≡◌, refl, true, [], ◌∷◌, All}
use task_man.Text.{Text, lit, text_run}
use task_man.Api.Types.{SystemRole, AuthUser}
use task_man.Session.{Session, first_session, screen}
use task_man.Session.Form.{
  PasswordForm, empty_form, handle_submit, form_step, type_current, type_next, type_confirm,
  click_submit,
}
use task_man.Session.Kept.{
  step, me_answer, forced_answer, start, next, IsLocked, Reach-IsLocked, mounted, later, IsAllowed,
  FormReach-IsAllowed,
}

abbrev reset_user : AuthUser
reset_user = record {
  id = lit "u1";
  name = lit "Sam";
  email = lit "sam@x.io";
  system_role = SystemRole.user;
  must_change_password = true;
  teams = [];
}

abbrev changed_session : Session
changed_session = step (forced_answer reset_user) (step (me_answer reset_user) first_session)

Reach-IsLocked_example : IsLocked (screen changed_session.boot changed_session.user)
Reach-IsLocked_example =
    Reach-IsLocked (next (next start (me_answer reset_user)) (forced_answer reset_user))

form_run : Unit {0}
unfolding handle_submit text_run
form_run = tt

abbrev secret : Text
secret = lit "correct horse"

abbrev typed_form : PasswordForm
typed_form =
    form_step (type_confirm secret)
      (form_step (type_next secret) (form_step (type_current (lit "old")) empty_form))

-- The form with both copies of the new password is sent.
sent_test : (form_step click_submit typed_form).sent ≡ (lit "old", secret) ∷ []
unfolding form_run
sent_test = refl

FormReach-IsAllowed_example : All IsAllowed (form_step click_submit typed_form).sent
FormReach-IsAllowed_example = FormReach-IsAllowed (
    later
      (later (later (later mounted (type_current (lit "old"))) (type_next secret))
        (type_confirm secret))
      click_submit)
