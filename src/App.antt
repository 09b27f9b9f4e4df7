-- ===== src/App.antt =====
-- dashboard/src/App.tsx: the route, the theme and the session gate in front of the pages. The language
-- gives the texts `session_error`, `logout_error` and `admin_user`.
pub mod Gate
pub mod Shell
use proxy_pool_architect.Base.{Bool, true, false, Option, none, some, if◌then◌else◌, or_else}
use proxy_pool_architect.Base.Text.{Text, codes, non_empty, text_beq}
use proxy_pool_architect.Effects.{Exception, Result, ok, err, message_or}
use proxy_pool_architect.Types.Unions.{DashboardRoute, AuthMethod}
use proxy_pool_architect.Types.Records.{AuthSessionStatus}
use proxy_pool_architect.Navigation.{to_route}
use proxy_pool_architect.ApiClient.Client.{DashboardDataMode, mock, live}

pub data ThemeMode : Type 0 where
  dark light : ThemeMode

abbrev pub theme_text : ThemeMode → Text
theme_text dark = codes "dark"
theme_text light = codes "light"

-- `persisted` is the stored theme.
unfoldable pub get_initial_theme : Option Text → ThemeMode
get_initial_theme none = dark
get_initial_theme (some persisted) = if text_beq persisted (codes "light") then light else dark

unfoldable pub toggle_theme : ThemeMode → ThemeMode
toggle_theme dark = light
toggle_theme light = dark

pub record AppState : Type 0 where
  pub route : DashboardRoute
  pub theme : ThemeMode
  pub auth_status : Option AuthSessionStatus
  pub auth_loading : Bool
  pub auth_error : Option Text

abbrev initial_auth_status : DashboardDataMode → Option AuthSessionStatus
initial_auth_status live = none
initial_auth_status mock = some (record {
  enabled = false;
  authenticated = false;
  username = none;
  expires_at = none;
  auth_method = some AuthMethod.disabled;
})

abbrev pub is_live : DashboardDataMode → Bool
is_live live = true
is_live mock = false

unfoldable pub initial_app : DashboardDataMode → (hash : Text) → Option Text → AppState
unfolding get_initial_theme to_route
initial_app mode hash persisted = record {
  route = to_route hash;
  theme = get_initial_theme persisted;
  auth_status = initial_auth_status mode;
  auth_loading = is_live mode;
  auth_error = none;
}

unfoldable pub handle_hash_change : Text → AppState → AppState
unfolding to_route
handle_hash_change hash s = record s { route = to_route hash }

-- `loadAuthStatus` up to the request, and from its end on.
unfoldable pub begin_auth_load : AppState → AppState
begin_auth_load s = record s { auth_loading = true; auth_error = none }

unfoldable pub end_auth_load : Text → Result AuthSessionStatus → AppState → AppState
end_auth_load session_error (ok next) s = record s { auth_status = some next; auth_loading = false }
end_auth_load session_error (err e) s = record s {
  auth_error = some (message_or session_error e);
  auth_loading = false;
}

-- `handleLogout` from the end of its request on.
unfoldable pub end_logout : Text → Result AuthSessionStatus → AppState → AppState
end_logout logout_error (ok next) s = record s { auth_status = some next }
end_logout logout_error (err e) s = record s { auth_error = some (message_or logout_error e) }

-- What `App` renders: a page stands in the shell, with the user's label and whether there is a logout.
pub data View : Type 0 where
  loading_view : View
  error_view : Text → View
  login_view : View
  shell_view : DashboardRoute → (user_label : Option Text) → (has_logout : Bool) → View

abbrev pub needs_login : Option AuthSessionStatus → Bool
needs_login none = false
needs_login (some status) =
    if status.enabled then if status.authenticated then false else true else false

abbrev pub shell_of : Text → DashboardRoute → Option AuthSessionStatus → View
shell_of admin_user route none = shell_view route none false
shell_of admin_user route (some status) =
    shell_view route
      (if status.authenticated then some (or_else status.username admin_user) else none)
      status.enabled

unfoldable pub view : Text → DashboardDataMode → AppState → View
view admin_user mock s = shell_of admin_user s.route s.auth_status
view admin_user live s = if s.auth_loading then loading_view else elim (non_empty s.auth_error) [
  | some message ↦ error_view message
  | none ↦
      if needs_login s.auth_status then login_view else shell_of admin_user s.route s.auth_status
]
