-- ===== src/App/Gate.antt =====
-- dashboard/src/App.tsx: which states the application reaches, and who gets to see a page.
use proxy_pool_architect.Base.{
  Bool, true, false, ◌≡◌, refl, Option, none, some, [], ◌∷◌, ◌⊎◌, inl, inr, Bool-cases,
  Option-cases, arith,
}
use proxy_pool_architect.Base.Text.{Text}
use proxy_pool_architect.Effects.{Result, ok, err, message_or}
use proxy_pool_architect.Types.Unions.{DashboardRoute}
use proxy_pool_architect.Types.Records.{AuthSessionStatus}
use proxy_pool_architect.ApiClient.Client.{DashboardDataMode, live}
use proxy_pool_architect.App.{
  AppState, initial_app, handle_hash_change, toggle_theme, begin_auth_load, end_auth_load,
  end_logout, shell_view, needs_login, view,
}

-- What happens to the application. Loads of the session may overlap, and end in any order.
pub data Step (s s' : AppState) : Type 0 where
  hash_changed : (hash : Text) → s' ≡ handle_hash_change hash s → Step s s'
  theme_toggled : s' ≡ record s { theme = toggle_theme s.theme } → Step s s'
  load_begun : s' ≡ begin_auth_load s → Step s s'
  load_ended :
      (session_error : Text) (result : Result AuthSessionStatus)
      → s' ≡ end_auth_load session_error result s
      → Step s s'
  logout_ended :
      (logout_error : Text) (result : Result AuthSessionStatus)
      → s' ≡ end_logout logout_error result s
      → Step s s'

pub data Reach (mode : DashboardDataMode) : AppState → Type 0 where
  start : (hash : Text) (persisted : Option Text) → Reach mode (initial_app mode hash persisted)
  next : {s s' : AppState} → Reach mode s → Step s s' → Reach mode s'

-- The session is being asked for, the asking has failed, or its answer is there.
abbrev IsAsked : AppState → Type 0
IsAsked s =
    (s.auth_loading ≡ true)
    ⊎ (((message : Text) × (s.auth_error ≡ some message))
        ⊎ ((status : AuthSessionStatus) × (s.auth_status ≡ some status)))

end_auth_load-IsAsked :
    (text : Text) (result : Result AuthSessionStatus) (s : AppState)
    → IsAsked (end_auth_load text result s)
unfolding end_auth_load
end_auth_load-IsAsked text (ok status) s = inr (inr (status, refl))
end_auth_load-IsAsked text (err e) s = inr (inl (message_or text e, refl))

end_logout-IsAsked :
    (text : Text) (result : Result AuthSessionStatus) (s : AppState)
    → IsAsked s
    → IsAsked (end_logout text result s)
unfolding end_logout
end_logout-IsAsked text (ok status) s asked = inr (inr (status, refl))
end_logout-IsAsked text (err e) s asked = inr (inl (message_or text e, refl))

Step-IsAsked : {s s' : AppState} → Step s s' → IsAsked s → IsAsked s'
unfolding handle_hash_change begin_auth_load
Step-IsAsked (hash_changed hash e) asked = rw e asked
Step-IsAsked (theme_toggled e) asked = rw e asked
Step-IsAsked (load_begun e) asked = rw e (inl refl)
Step-IsAsked {s} (load_ended text result e) asked = rw e (end_auth_load-IsAsked text result s)
Step-IsAsked {s} (logout_ended text result e) asked = rw e (end_logout-IsAsked text result s asked)

Reach-IsAsked : {s : AppState} → Reach live s → IsAsked s
unfolding initial_app
Reach-IsAsked (start hash persisted) = inl refl
Reach-IsAsked (next r step) = Step-IsAsked step (Reach-IsAsked r)

-- The session allows the pages: there is no login, or it has been done.
abbrev pub IsAllowed : AppState → Type 0
IsAllowed s =
    (status : AuthSessionStatus) × (s.auth_status ≡ some status)
    × ((status.enabled ≡ false) ⊎ (status.authenticated ≡ true))

allowed :
    (s : AppState) (status : AuthSessionStatus)
    → s.auth_status ≡ some status
    → needs_login (some status) ≡ false
    → IsAllowed s
allowed s status known passed = elim (Bool-cases status.enabled) [
  | inl on ↦ (status, known, inr (ground arith))
  | inr off ↦ (status, known, inl off)
]

module _ (admin_user : Text) (s : AppState) {route : DashboardRoute} {user_label : Option Text}
    {has_logout : Bool}
    (shown : view admin_user live s ≡ shell_view route user_label has_logout) where
  not_loading : s.auth_loading ≡ true → IsAllowed s ⊎ (s.auth_error ≡ some [])
  unfolding view
  not_loading loading = let bad = rw loading at shown in cc

  after_error :
      (message : Text)
      → s.auth_error ≡ some message
      → s.auth_loading ≡ false
      → IsAllowed s ⊎ (s.auth_error ≡ some [])
  unfolding view
  after_error [] failed idle = inr failed
  after_error (c ∷ message) failed idle = let bad = rw (idle, failed) at shown in cc

  after_status :
      (status : AuthSessionStatus)
      → s.auth_status ≡ some status
      → s.auth_error ≡ none
      → s.auth_loading ≡ false
      → IsAllowed s ⊎ (s.auth_error ≡ some [])
  unfolding view
  after_status status known fine idle = elim (Bool-cases (needs_login (some status))) [
    | inl needed ↦ let bad = rw (idle, fine, known, needed) at shown in cc
    | inr passed ↦ inl (allowed s status known passed)
  ]

-- In the live mode, in every state that the application reaches by changes of the route and theme and
-- by loads of the session and logouts that end in any order, a page is shown only if the session's
-- status is known and asks for no login or says that it is done; the one exception is an error whose
-- message is the empty text.
pub Reach-IsAllowed :
    {s : AppState} {route : DashboardRoute} {user_label : Option Text} {has_logout : Bool}
    (admin_user : Text)
    → Reach live s
    → view admin_user live s ≡ shell_view route user_label has_logout
    → IsAllowed s ⊎ (s.auth_error ≡ some [])
Reach-IsAllowed {s} admin_user reached shown = elim (Bool-cases s.auth_loading) [
  | inl loading ↦ not_loading admin_user s shown loading
  | inr idle ↦ elim (Option-cases s.auth_error) [
    | inr (message, failed) ↦ after_error admin_user s shown message failed idle
    | inl fine ↦ elim (Reach-IsAsked reached) [
      | inl loading ↦ not_loading admin_user s shown loading
      | inr (inl (message, failed)) ↦ after_error admin_user s shown message failed idle
      | inr (inr (status, known)) ↦ after_status admin_user s shown status known fine idle
    ]
  ]
]
