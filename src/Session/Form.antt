-- ===== src/Session/Form.antt =====
-- ui/src/auth/ChangePasswordForm.tsx: the form of a new password. The texts are measured in UTF-16
-- units, as the language does.
use task_man.Prelude.{
  ℕ, leb, Bool, true, false, not, ◌&&◌, ◌||◌, List, [], ◌∷◌, ◌++◌, Option, none, some,
  if◌then◌else◌, length,
}
use task_man.Text.{Text, text_eq, is_empty}

abbrev pub min_length : ℕ
min_length = 8

-- `sent` holds the passwords sent, the current and the new one; `closed` whether `onSuccess` ran.
pub record PasswordForm : Type 0 where
  pub current : Text
  pub next_password : Text
  pub confirm : Text
  pub error : Option Text
  pub busy : Bool
  pub sent : List (Text × Text)
  pub closed : Bool

abbrev pub empty_form : PasswordForm
empty_form = record {
  current = [];
  next_password = [];
  confirm = [];
  error = none;
  busy = false;
  sent = [];
  closed = false;
}

unfoldable pub too_short : PasswordForm → Bool
too_short f = not (is_empty f.next_password) && not (leb min_length (length f.next_password))

unfoldable pub is_mismatch : PasswordForm → Bool
is_mismatch f = not (is_empty f.confirm) && not (text_eq f.next_password f.confirm)

abbrev pub can_submit : PasswordForm → Bool
can_submit f =
    not (is_empty f.current)
    && (leb min_length (length f.next_password) && text_eq f.next_password f.confirm)

unfoldable pub handle_submit : PasswordForm → PasswordForm
handle_submit f =
    if f.busy || not (can_submit f)
    then f
    else record f { error = none; busy = true; sent = f.sent ++ (f.current, f.next_password) ∷ [] }

abbrev pub form_answered : PasswordForm → PasswordForm
form_answered f = record f { closed = true }

abbrev pub form_refused : Text → PasswordForm → PasswordForm
form_refused e f = record f { error = some e; busy = false }

pub data FormEvent : Type 0 where
  type_current type_next type_confirm : Text → FormEvent
  click_submit answer : FormEvent
  refusal : Text → FormEvent

abbrev pub form_step : FormEvent → PasswordForm → PasswordForm
form_step (type_current v) f = record f { current = v }
form_step (type_next v) f = record f { next_password = v }
form_step (type_confirm v) f = record f { confirm = v }
form_step click_submit f = handle_submit f
form_step answer f = form_answered f
form_step (refusal e) f = form_refused e f
