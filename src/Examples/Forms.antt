-- ===== src/Examples/Forms.antt =====
-- The forms, the stored preferences and the validation page on concrete states.
use proxy_pool_architect.Base.{filter, ◌≡◌, refl, true, false, none, some, [], ◌∷◌}
use proxy_pool_architect.Base.Text.{codes}
use proxy_pool_architect.Effects.{js_error, ok, err}
use proxy_pool_architect.Types.Unions.{
  proxies, ProxyUrlImportFileType, JobStatus, pool_eq, scheme_eq, anonymity_eq,
}
use proxy_pool_architect.Types.Records.{AuthSessionStatus, PaginatedResponse, ValidationJob}
use proxy_pool_architect.Examples.Samples.{
  first_proxy, some_settings, three_stored, browser, empty_server, no_state,
}
use proxy_pool_architect.MockStore.{
  get_mock_overview_data, get_mock_proxy, delete_mock_proxy, get_mock_settings,
  update_mock_settings,
}
use proxy_pool_architect.MockStore.Import.{imported_proxies, import_source, submit_from_host}
use proxy_pool_architect.MockStore.Catalogue.{
  catalogue_of, take_out, put_in, set_settings, catalogue_of_steps,
}
use proxy_pool_architect.ApiClient.Client.{mock, live, get_settings, update_settings}
use proxy_pool_architect.I18n.{en, language_text}
use proxy_pool_architect.App.{
  AppState, shell_view, error_view, view, initial_app, end_auth_load, begin_auth_load, theme_text,
}
use proxy_pool_architect.Preferences.{Preferences, opened, set_language, press_theme}
use proxy_pool_architect.Preferences.Stored.{Reach-opened}
use proxy_pool_architect.Preferences.Stored as Stored
use proxy_pool_architect.Pages.Settings.{
  SettingsState, NumberField, Toggle, typed, checked, edited, number_of, toggle_of, end_save,
  begin_save,
}
use proxy_pool_architect.Pages.Settings as Settings
use proxy_pool_architect.Pages.Settings.Saving.{end_save-update_settings, enter_all, enter_all_lost}
use proxy_pool_architect.Pages.Login.{LoginForm, Entrance, new_login}
use proxy_pool_architect.Pages.Login.Flow.{logged_in, logged_in_lem}
use proxy_pool_architect.Pages.Validation.Screen.{ValidationState, Answers, initial_validation}
use proxy_pool_architect.Pages.Validation.Screen as Screen
use proxy_pool_architect.Pages.Validation.Fresh.{IsCurrent, Reach-IsCurrent}
use proxy_pool_architect.Pages.Validation.Fresh as Checks
use proxy_pool_architect.App.Shell.{NavLink}
use proxy_pool_architect.App.Shell.Links.{followed, frame_after, followed_lem}

abbrev shown_settings : SettingsState
shown_settings = record {
  settings = some some_settings;
  loading = false;
  saving = false;
  error = none;
  message_key = none;
  effect = 1;
}

end_save-update_settings_example :
    let saved = update_settings browser empty_server 6000 mock some_settings no_state in
    let s' = end_save (codes "Failed") saved.0 (begin_save shown_settings) in
    (Settings.view s' ≡ Settings.form_view some_settings)
    × (s'.saving ≡ false)
    × (s'.message_key ≡ some (codes "settings.saved"))
    × ((get_settings browser empty_server 6000 mock saved.1).0 ≡ ok some_settings)
unfolding Settings.press_save
end_save-update_settings_example =
    end_save-update_settings browser empty_server 6000 (codes "Failed") shown_settings no_state refl

enter_all_lost_example :
    let edits =
      typed NumberField.cooldown (codes "7") ∷ checked Toggle.private_networks false ∷ [] in
    (end_save (codes "Failed") (ok some_settings) (enter_all (λ t. some 7) edits shown_settings)
      ≡ end_save (codes "Failed") (ok some_settings) shown_settings)
    × (Settings.end_load
          (codes "Failed")
          2
          (ok some_settings)
          (Settings.run_effect (enter_all (λ t. some 7) edits shown_settings))
        ≡ Settings.end_load
            (codes "Failed")
            2
            (ok some_settings)
            (Settings.run_effect shown_settings))
enter_all_lost_example =
    enter_all_lost (λ t. some 7)
      (typed NumberField.cooldown (codes "7") ∷ checked Toggle.private_networks false ∷ [])
      (codes "Failed") some_settings shown_settings

abbrev no_session : AuthSessionStatus
no_session = record {
  enabled = true;
  authenticated = false;
  username = none;
  expires_at = none;
  auth_method = none;
}

abbrev a_session : AuthSessionStatus
a_session = record no_session { authenticated = true; username = some (codes "admin") }

abbrev at_login : AppState
at_login =
    end_auth_load (codes "Failed") (ok no_session)
      (begin_auth_load (initial_app live (codes "#/geo") none))

abbrev filled_form : LoginForm
filled_form = record new_login { username = codes "admin"; password = codes "secret" }

abbrev entrance : Entrance
entrance = record { app = at_login; form = some filled_form }

logged_in_lem_example :
    let opened =
      logged_in
        (codes "Admin")
        (codes "No")
        (codes "Failed")
        (ok a_session)
        (ok a_session)
        entrance in
    let broken =
      logged_in
        (codes "Admin")
        (codes "No")
        (codes "Failed")
        (ok a_session)
        (err (js_error (codes "down")))
        entrance in
    (logged_in
        (codes "Admin")
        (codes "No")
        (codes "Failed")
        (err (js_error (codes "wrong")))
        (ok a_session)
        entrance
      ≡ record {
        app = at_login;
        form = some (record filled_form { pending = false; error = some (codes "wrong") });
      })
    × (view (codes "Admin") live opened.app ≡ shell_view at_login.route (some (codes "admin")) true)
    × (opened.form ≡ none)
    × (view (codes "Admin") live broken.app ≡ error_view (codes "down"))
    × (broken.form ≡ none)
logged_in_lem_example =
    logged_in_lem (codes "Admin") (codes "No") (codes "Failed") at_login filled_form a_session
      a_session (js_error (codes "wrong")) (js_error (codes "down")) refl

abbrev used : Preferences
used = press_theme (set_language en (opened (codes "zh") []))

Reach-opened_example :
    ((opened (codes "de") used.storage).language ≡ used.language)
    × ((opened (codes "de") used.storage).theme ≡ used.theme)
    × (used.document_language ≡ language_text used.language)
    × (used.document_theme ≡ theme_text used.theme)
Reach-opened_example =
    Reach-opened
      (Stored.Reach.step
        (Stored.Reach.step (Stored.Reach.start (codes "zh") []) (Stored.Step.language_set en refl))
        (Stored.Step.theme_pressed refl))
      (codes "de")

catalogue_of_steps_example :
    let imported =
      imported_proxies ProxyUrlImportFileType.auto
        (import_source ProxyUrlImportFileType.auto (codes "h")) in
    (catalogue_of (delete_mock_proxy (codes "a") three_stored).1
      ≡ take_out (codes "a") (catalogue_of three_stored))
    × ((delete_mock_proxy (codes "a") three_stored).0.ok ≡ true)
    × (catalogue_of (submit_from_host (codes "h") ProxyUrlImportFileType.auto three_stored).1
        ≡ put_in imported (catalogue_of three_stored))
    × (catalogue_of (update_mock_settings some_settings three_stored).1
        ≡ set_settings some_settings (catalogue_of three_stored))
    × (get_mock_proxy (codes "a") three_stored ≡ ok first_proxy)
    × (get_mock_settings three_stored ≡ some_settings)
catalogue_of_steps_example =
    catalogue_of_steps (codes "a") (codes "h") ProxyUrlImportFileType.auto some_settings
      three_stored

abbrev one_job : ValidationJob
one_job = record {
  id = codes "j";
  started_at = codes "1";
  finished_at = none;
  checked_count = 10;
  success_count = 6;
  fail_count = 4;
  timeout_count = 3;
  status = JobStatus.finished;
}

abbrev job_page : PaginatedResponse ValidationJob
job_page = record { items = one_job ∷ []; total = 1; limit = 10; offset = 0 }

abbrev three_answers : Answers
three_answers = record {
  validation_jobs = job_page;
  next_overview = get_mock_overview_data (codes "1");
  next_events = record { items = []; total = 0; limit = 50; offset = 0 };
}

abbrev loaded_validation : ValidationState
loaded_validation =
    Screen.end_load (codes "Failed") 1 (ok three_answers) (Screen.run_effect initial_validation)

Reach-IsCurrent_example : IsCurrent loaded_validation
unfolding Screen.run_effect
Reach-IsCurrent_example = Reach-IsCurrent (
    Checks.Reach.step Checks.Reach.start
      (Checks.Step.responded (codes "Failed") 1 (ok three_answers) (λ e. refl) refl))

loaded_validation-idle : loaded_validation.loading ≡ false
unfolding Screen.run_effect Screen.end_load
loaded_validation-idle = refl

followed_lem_example :
    ((followed en live at_login none true proxies).route ≡ proxies)
    × (filter
          (λ (link : NavLink). link.active)
          (frame_after en live at_login none true proxies).links
        ≡ record {
          href = codes "#/proxies";
          label = (frame_after en live at_login none true proxies).heading;
          active = true;
        }
          ∷ [])
followed_lem_example = followed_lem en live at_login none true proxies
