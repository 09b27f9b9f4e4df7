-- ===== src/Pages/Login.antt =====
-- dashboard/src/pages/LoginPage.tsx under dashboard/src/App.tsx: the login form is there while the
-- application shows it, and its state is lost when it does not. `onLoggedIn` is `loadAuthStatus`.
pub mod Flow
use proxy_pool_architect.Base.{
  Bool, true, false, Option, none, some, List, [], or_else, if◌then◌else◌,
}
use proxy_pool_architect.Base.Text.{Text, trim}
use proxy_pool_architect.Effects.{Exception, Result, ok, err, message_or}
use proxy_pool_architect.Types.Records.{AuthSessionStatus}
use proxy_pool_architect.ApiClient.Client.{live}
use proxy_pool_architect.App.{
  AppState, View, loading_view, error_view, login_view, shell_view, view, begin_auth_load,
  end_auth_load,
}

pub record LoginForm : Type 0 where
  pub username : Text
  pub password : Text
  pub pending : Bool
  pub error : Option Text

abbrev pub new_login : LoginForm
new_login = record { username = []; password = []; pending = false; error = none }

-- The application in the live mode, with its login form.
pub record Entrance : Type 0 where
  pub app : AppState
  pub form : Option LoginForm

abbrev pub form_in : View → Option LoginForm → Option LoginForm
form_in loading_view form = none
form_in (error_view message) form = none
form_in login_view form = some (or_else form new_login)
form_in (shell_view route label logout) form = none

-- The application renders: the form is mounted or unmounted.
unfoldable pub render : Text → Entrance → Entrance
unfolding view
render admin_user s = record s { form = form_in (view admin_user live s.app) s.form }

abbrev pub set_login : (LoginForm → LoginForm) → Option LoginForm → Option LoginForm
set_login set none = none
set_login set (some form) = some (set form)

abbrev pub with_form : (LoginForm → LoginForm) → Entrance → Entrance
with_form set s = record s { form = set_login set s.form }

-- The fields of the form.
unfoldable pub enter_login : (username password : Text) → Entrance → Entrance
enter_login username password =
    with_form (λ form. record form { username = username; password = password })

-- `handleSubmit` up to its request, and what that sends.
unfoldable pub begin_login : Entrance → Entrance
begin_login = with_form (λ form. record form { pending = true; error = none })

abbrev pub login_request : LoginForm → Text × Text
login_request form = (trim form.username, form.password)

-- From the answer to the login on: a failure is shown, after a success the session is loaded.
unfoldable pub end_login :
    (admin_user login_error : Text) → Result AuthSessionStatus → Entrance → Entrance
unfolding render begin_auth_load
end_login admin_user login_error (ok status) s =
    render admin_user (record s { app = begin_auth_load s.app })
end_login admin_user login_error (err e) s =
    with_form (λ form. record form { error = some (message_or login_error e); pending = false }) s

-- The answer to that load, and what `handleSubmit` does at its end.
unfoldable pub end_session :
    (admin_user session_error : Text) → Result AuthSessionStatus → Entrance → Entrance
unfolding render end_auth_load
end_session admin_user session_error answer s =
    render admin_user (record s { app = end_auth_load session_error answer s.app })
