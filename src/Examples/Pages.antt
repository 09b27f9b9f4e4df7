-- ===== src/Examples/Pages.antt =====
-- The application and its pages (dashboard/src/App.tsx and dashboard/src/pages) in concrete states.
use proxy_pool_architect.Base.{
  ◌≤◌, ◌≡◌, refl, true, false, none, some, List, [], ◌∷◌, ◌⊎◌, sum_by, AllPairs, arith,
  if◌then◌else◌,
}
use proxy_pool_architect.Base.Text.{Text, codes, text_beq}
use proxy_pool_architect.Effects.{js_error, ok, err}
use proxy_pool_architect.Types.Unions.{DashboardRoute, EventLevel}
use proxy_pool_architect.Types.Records.{AuthSessionStatus, EventLogEntry, OverviewData}
use proxy_pool_architect.MockStore.{get_mock_overview_data, paginate_items}
use proxy_pool_architect.ApiClient.Client.{live}
use proxy_pool_architect.App.{
  AppState, initial_app, begin_auth_load, end_auth_load, view, shell_view,
}
use proxy_pool_architect.App.Gate.{IsAllowed, Reach-IsAllowed}
use proxy_pool_architect.App.Gate as Gate
use proxy_pool_architect.Pages.Logs.{LogsState, initial_logs, respond, offset_of}
use proxy_pool_architect.Pages.Logs as Logs
use proxy_pool_architect.Pages.Logs.Fresh.{IsFresh, Reach-IsFresh}
use proxy_pool_architect.Pages.Logs.Fresh as Fresh
use proxy_pool_architect.Pages.Logs.Settling.{page_at, settle, IsSettled, settle-IsSettled}
use proxy_pool_architect.Pages.Overview.{
  Load, OverviewState, initial_overview, end_load, guard, error_view, no_data_view,
}
use proxy_pool_architect.Pages.Overview as Overview
use proxy_pool_architect.Pages.Overview.Guard.{guard-run_effect}
use proxy_pool_architect.Pages.Validation.{count_error_types}
use proxy_pool_architect.Pages.Validation.Errors.{count_error_types_lem}

abbrev logged_in : AuthSessionStatus
logged_in = record {
  enabled = true;
  authenticated = true;
  username = some (codes "admin");
  expires_at = none;
  auth_method = none;
}

abbrev opened : AppState
opened =
    end_auth_load (codes "failed") (ok logged_in)
      (begin_auth_load (initial_app live (codes "#/geo") none))

opened-shown :
    view (codes "Admin") live opened ≡ shell_view DashboardRoute.geo (some (codes "admin")) true
unfolding view end_auth_load begin_auth_load initial_app
opened-shown = refl

Reach-IsAllowed_example : IsAllowed opened ⊎ (opened.auth_error ≡ some [])
Reach-IsAllowed_example =
    Reach-IsAllowed (codes "Admin")
      (Gate.Reach.next
        (Gate.Reach.next (Gate.Reach.start (codes "#/geo") none) (Gate.Step.load_begun refl))
        (Gate.Step.load_ended (codes "failed") (ok logged_in) refl))
      opened-shown

abbrev event : Text → EventLevel → EventLogEntry
event type level = record {
  id = codes "e";
  type = type;
  level = level;
  message = codes "m";
  created_at = codes "1";
}

abbrev two_events : List EventLogEntry
two_events =
    event (codes "timeout") EventLevel.warning ∷ event (codes "deleted") EventLevel.info ∷ []

abbrev first_logs : LogsState
first_logs = Logs.run_effect initial_logs

abbrev listed_logs : LogsState
listed_logs = respond (codes "failed") 1 (ok (page_at two_events 1)) first_logs

first_echo : Fresh.Echoes 1 first_logs (ok (page_at two_events 1))
unfolding paginate_items Logs.run_effect
first_echo current = refl

Reach-IsFresh_example : IsFresh listed_logs
Reach-IsFresh_example = Reach-IsFresh (
    Fresh.Reach.step Fresh.Reach.start
      (Fresh.Step.responded (codes "failed") 1 (ok (page_at two_events 1)) first_echo refl))

abbrev far_logs : LogsState
far_logs = record initial_logs { page = 3 }

settle-IsSettled_example : IsSettled two_events 3 (settle (codes "failed") two_events 3 far_logs)
settle-IsSettled_example =
    settle-IsSettled (codes "failed") two_events 3 far_logs (omega arith) (omega arith)
      (omega arith) refl

abbrev some_overview : OverviewData
some_overview = get_mock_overview_data (codes "1")

abbrev refreshing : OverviewState
refreshing = record initial_overview {
  overview = some some_overview;
  loading = false;
  has_data = true;
  under_way = some (record { run = 1; initial = false });
  effect = 1;
  settled = true;
}

guard-run_effect_example :
    let s' =
      guard (codes "Failed") (
        end_load
          (codes "2")
          (codes "Failed")
          (ok some_overview)
          (Overview.run_effect refreshing)) in
    (Overview.view s' ≡ error_view (codes "Failed"))
    × (s'.overview ≡ some some_overview)
    × (s'.under_way ≡ none)
guard-run_effect_example =
    guard-run_effect refreshing (record { run = 1; initial = false }) (codes "2") (codes "Failed")
      (ok some_overview) refl refl refl

abbrev silent : OverviewState
silent =
    end_load (codes "1") (codes "Failed") (err (js_error [])) (Overview.run_effect initial_overview)

silent-shown : Overview.view silent ≡ no_data_view
unfolding Overview.view end_load Overview.run_effect Overview.begin_load
silent-shown = refl

count_error_types_lem_example :
    (sum_by
        (λ e. if text_beq e.type (codes "timeout") then e.total else 0)
        (count_error_types two_events)
      ≡ 1)
    × (sum_by
          (λ e. if text_beq e.type (codes "timeout") then 1 else 0)
          (count_error_types two_events)
        ≡ 1)
    × (sum_by (λ e. e.total) (count_error_types two_events) ≡ 1)
    × AllPairs (λ a b. b.total ≤ a.total) (count_error_types two_events)
count_error_types_lem_example = count_error_types_lem (codes "timeout") two_events
