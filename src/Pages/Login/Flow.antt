-- ===== src/Pages/Login/Flow.antt =====
-- dashboard/src/pages/LoginPage.tsx: what comes of a login.
use proxy_pool_architect.Base.{Bool, true, false, ◌≡◌, refl, none, some, if◌then◌else◌}
use proxy_pool_architect.Base.Text.{Text, truthy}
use proxy_pool_architect.Effects.{Exception, Result, ok, err, message_or}
use proxy_pool_architect.Types.Records.{AuthSessionStatus}
use proxy_pool_architect.ApiClient.Client.{live}
use proxy_pool_architect.App.{
  AppState, error_view, login_view, view, needs_login, shell_of, begin_auth_load, end_auth_load,
}
use proxy_pool_architect.Pages.Login.{
  LoginForm, new_login, Entrance, form_in, render, begin_login, end_login, end_session,
}

-- The user submits the form, and the two answers come.
abbrev pub logged_in :
    (admin_user login_error session_error : Text)
    → Result AuthSessionStatus
    → Result AuthSessionStatus
    → Entrance
    → Entrance
logged_in admin_user login_error session_error login session s =
    let tried = end_login admin_user login_error login (begin_login s) in
    elim login [ ok status ↦ end_session admin_user session_error session tried | err e ↦ tried ]

module _ (admin_user login_error session_error : Text) (app : AppState) (form : LoginForm) where
  -- A login at the form that is refused leaves the user at the form, with what was entered and the
  -- message. After one that is accepted, a session that needs no login opens the page of the route and
  -- drops the form with the password; one that still needs it shows a new, empty form; and a session
  -- that cannot be loaded, with an error whose text is not empty, shows that error and no form.
  pub logged_in_lem :
      (accepted status : AuthSessionStatus) (refused failed : Exception)
      → truthy (message_or session_error failed) ≡ true
      → let s : Entrance = record { app = app; form = some form } in
        let opened = logged_in admin_user login_error session_error (ok accepted) (ok status) s in
        let broken = logged_in admin_user login_error session_error (ok accepted) (err failed) s in
        (logged_in admin_user login_error session_error (err refused) (ok status) s ≡ record {
          app = app;
          form =
              some (record form { pending = false; error = some (message_or login_error refused) });
        })
        × (view admin_user live opened.app ≡ (
            if needs_login (some status)
            then login_view
            else shell_of admin_user app.route (some status)))
        × (opened.form ≡ (if needs_login (some status) then some new_login else none))
        × (view admin_user live broken.app ≡ error_view (message_or session_error failed))
        × (broken.form ≡ none)
  unfolding begin_login end_login end_session render view begin_auth_load end_auth_load
  logged_in_lem accepted status refused failed told =
      (refl, refl, opened (needs_login (some status)), rw told refl, rw told refl)
    where
      opened :
          (needed : Bool)
          → form_in
              (if needed then login_view else shell_of admin_user app.route (some status))
              none
            ≡ (if needed then some new_login else none)
      opened true = refl
      opened false = refl
