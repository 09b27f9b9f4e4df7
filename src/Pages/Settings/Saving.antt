-- ===== src/Pages/Settings/Saving.antt =====
-- dashboard/src/pages/SettingsPage.tsx: what comes of edits that are saved, and of edits that are not.
use proxy_pool_architect.Base.{
  ℕ, ◌+◌, Bool, true, false, ◌≡◌, refl, ap, ◌∙◌, Option, none, some, List, [], ◌∷◌, arith, nat_beq,
  if◌then◌else◌,
}
use proxy_pool_architect.Base.Text.{Text, codes}
use proxy_pool_architect.Effects.{ok}
use proxy_pool_architect.Types.Records.{DashboardSettings}
use proxy_pool_architect.ApiClient.Call.{ClientState, Server}
use proxy_pool_architect.ApiClient.Client.{Environment, mock, get_settings, update_settings}
use proxy_pool_architect.Pages.Settings.{
  SettingsState, Edit, edited, View, loading_view, error_view, empty_view, form_view, view,
  run_effect, loaded, end_load, on_form, enter, saved_from, press_save, begin_save, end_save,
}

saved_from-form :
    (b : Bool) (s : SettingsState) (v : View) {sent : DashboardSettings}
    → saved_from b s v ≡ some sent
    → v ≡ form_view sent
saved_from-form true s v h = cc
saved_from-form false s loading_view h = cc
saved_from-form false s (error_view message) h = cc
saved_from-form false s empty_view h = cc
saved_from-form false s (form_view settings) h = cc

form-loading :
    (s : SettingsState) {shown : DashboardSettings} → view s ≡ form_view shown → s.loading ≡ false
unfolding view
form-loading s h = of_loading s.loading _ h
  where
    of_loading :
        (loading : Bool) (v : View) {shown : DashboardSettings}
        → (if loading then loading_view else v) ≡ form_view shown
        → loading ≡ false
    of_loading true v h = cc
    of_loading false v h = refl

-- In the mock mode, what the user saves is what the form shows afterwards, with the message that it is
-- saved, and what the client gives to each later load.
pub end_save-update_settings :
    (env : Environment) (server : Server) (timeout_ms : ℕ) (save_error : Text) (s : SettingsState)
    (c : ClientState) {sent : DashboardSettings}
    → press_save s ≡ some sent
    → let saved = update_settings env server timeout_ms mock sent c in
      let s' = end_save save_error saved.0 (begin_save s) in
      (view s' ≡ form_view sent)
      × (s'.saving ≡ false)
      × (s'.message_key ≡ some (codes "settings.saved"))
      × ((get_settings env server timeout_ms mock saved.1).0 ≡ ok sent)
unfolding press_save end_save update_settings get_settings
end_save-update_settings env server timeout_ms save_error s c {sent} h =
    let shown : view s ≡ form_view sent = saved_from-form s.saving s (view s) h in
    (unfold view in rw (form-loading s shown) refl, refl, refl, refl)

abbrev pub enter_all : (Text → Option ℕ) → List Edit → SettingsState → SettingsState
enter_all number [] s = s
enter_all number (edit ∷ edits) s = enter_all number edits (enter number edit s)

-- Two states that differ at most in the settings.
abbrev SameBut : SettingsState → SettingsState → Type 0
SameBut s s' = record s { settings = none } ≡ record s' { settings = none }

on_form-SameBut :
    (f : DashboardSettings → Option DashboardSettings) (s : SettingsState) (v : View)
    → SameBut (on_form (λ shown. record s { settings = f shown }) s v) s
on_form-SameBut f s loading_view = refl
on_form-SameBut f s (error_view message) = refl
on_form-SameBut f s empty_view = refl
on_form-SameBut f s (form_view settings) = refl

enter_all-SameBut :
    (number : Text → Option ℕ) (edits : List Edit) (s : SettingsState)
    → SameBut (enter_all number edits s) s
enter_all-SameBut number [] s = refl
enter_all-SameBut number (edit ∷ edits) s =
    enter_all-SameBut number edits (enter number edit s) ∙ entered
  where
    entered : SameBut (enter number edit s) s
    entered = unfold enter in on_form-SameBut (λ shown. some (edited number edit shown)) s (view s)

-- What the user enters while a save is under way is lost when the save succeeds, and what the user has
-- entered and not saved is lost when the language changes and the load after it succeeds: the page is
-- then in the state that it would be in without any of these edits.
pub enter_all_lost :
    (number : Text → Option ℕ) (edits : List Edit) (text : Text) (answer : DashboardSettings)
    (s : SettingsState)
    → (end_save text (ok answer) (enter_all number edits s) ≡ end_save text (ok answer) s)
      × (end_load text (s.effect + 1) (ok answer) (run_effect (enter_all number edits s))
          ≡ end_load text (s.effect + 1) (ok answer) (run_effect s))
unfolding end_save end_load run_effect
enter_all_lost number edits text answer s =
    let same = enter_all-SameBut number edits s in
    let effect : (enter_all number edits s).effect ≡ s.effect =
      ap (λ (r : SettingsState). r.effect) same in
    let late : nat_beq (s.effect + 1) ((enter_all number edits s).effect + 1) ≡ true =
      ground arith in
    let current : nat_beq (s.effect + 1) (s.effect + 1) ≡ true = ground arith in
    (
      ap (end_save text (ok answer)) same,
      rw (late, current) (ap (λ (r : SettingsState). loaded text (ok answer) (run_effect r)) same),
    )
