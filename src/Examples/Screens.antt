-- ===== src/Examples/Screens.antt =====
-- The proxies page, its drawer and filters, and the geo page of dashboard/src in concrete states.
use proxy_pool_architect.Base.{
  ◌<◌, ◌≡◌, refl, ◌⊎◌, inl, true, false, none, some, List, [], ◌∷◌, arith, length,
}
use proxy_pool_architect.Base.Text.{codes}
use proxy_pool_architect.Effects.{ok, err, js_error, Result}
use proxy_pool_architect.Types.Unions.{pool_eq, scheme_eq, anonymity_eq}
use proxy_pool_architect.Types.Records.{GeoSummary, ProxyListResponse}
use proxy_pool_architect.Examples.Samples.{first_proxy, second_proxy, three_proxies}
use proxy_pool_architect.ProxyList.{collect_proxy_filter_options}
use proxy_pool_architect.ProxyList.Filtering.{matches}
use proxy_pool_architect.ProxyList.Options.{occurrences}
use proxy_pool_architect.I18n.{en}
use proxy_pool_architect.Pages.Proxies.{ProxyFilterState, default_filters, query_of, begin_details}
use proxy_pool_architect.Pages.Proxies.Session.{
  Session, mount, asked_now, on_state, end_list, press_next,
}
use proxy_pool_architect.Pages.Proxies.Session.Fresh.{IsAnswered, Reach-IsAnswered}
use proxy_pool_architect.Pages.Proxies.Session.Steps
use proxy_pool_architect.Pages.Proxies.Session.Ending.{answer_all, answer_all-ends}
use proxy_pool_architect.Pages.Proxies.Session.Race.{raced, raced_stale}
use proxy_pool_architect.Pages.Proxies.Drawer.{drawer}
use proxy_pool_architect.Pages.Proxies.Drawer.Hiding.{drawer_hides}
use proxy_pool_architect.Pages.Proxies.Filters.{pools, schemes, anonymities}
use proxy_pool_architect.Pages.Proxies.Filters.Choices.{
  offers, choices_for, updated, matches-updated,
}
use proxy_pool_architect.Pages.Geo.{
  GeoState, initial_geo, run_effect, end_load, country_items, asn_items, guard,
}
use proxy_pool_architect.Pages.Geo as Geo
use proxy_pool_architect.Pages.Geo.Paging.{Reach_has_rows, late_answer}
use proxy_pool_architect.Pages.Geo.Paging as Paging

abbrev filled_session : Session
filled_session =
    end_list (codes "Failed") 1
      (ok (record { items = three_proxies; total = 3; limit = 8; offset = 0 })) mount

abbrev details_open : Session
details_open = on_state (begin_details first_proxy) filled_session

Reach-IsAnswered_example : IsAnswered details_open
Reach-IsAnswered_example = Reach-IsAnswered (
    Steps.Reach.step
      (Steps.Reach.step Steps.Reach.start (
        Steps.Step.list_answered (codes "Failed") 1
          (ok (record { items = three_proxies; total = 3; limit = 8; offset = 0 })) refl))
      (Steps.Step.handled (begin_details first_proxy) (Steps.Handler.opened first_proxy) refl))

-- The second page is empty when it is loaded, and the load of the first one fails.
abbrev second_page : Session
second_page = press_next (
    end_list (codes "Failed") 1
      (ok (record { items = three_proxies; total = 9; limit = 8; offset = 0 })) mount)

abbrev two_answers : List (Result ProxyListResponse)
two_answers =
    ok (record { items = []; total = 3; limit = 8; offset = 8 })
    ∷ err (js_error (codes "gone"))
    ∷ []

answer_all-ends_example :
    (answer_all (codes "Failed") two_answers second_page).state.loading ≡ false
unfolding end_list mount press_next
answer_all-ends_example =
    answer_all-ends (codes "Failed") two_answers
      (Steps.Reach.step
        (Steps.Reach.step Steps.Reach.start (
          Steps.Step.list_answered (codes "Failed") 1
            (ok (record { items = three_proxies; total = 9; limit = 8; offset = 0 })) refl))
        (Steps.Step.went_on refl))
      (omega arith)

second_page_run : second_page.state.page ≡ 2
unfolding end_list mount press_next
second_page_run = refl

filled_session-loaded : details_open.state.loading ≡ false
unfolding end_list mount begin_details
filled_session-loaded = refl

abbrev http_filters : ProxyFilterState
http_filters = record default_filters { query = codes "http" }

abbrev race_end : Session
race_end =
    raced first_proxy http_filters
      (record { items = first_proxy ∷ []; total = 1; limit = 8; offset = 0 })
      (record { items = three_proxies; total = 3; limit = 8; offset = 0 }) (record { ok = true })
      (codes "Failed") filled_session

raced_stale_example :
    (race_end.state.filters ≡ http_filters)
    × (race_end.state.loading ≡ false)
    × (race_end.state.error ≡ none)
    × (race_end.state.shown
        ≡ some (record { items = three_proxies; total = 3; limit = 8; offset = 0 }))
    × (race_end.answered ≡ some (asked_now filled_session.state))
raced_stale_example =
    raced_stale first_proxy http_filters
      (record { items = first_proxy ∷ []; total = 1; limit = 8; offset = 0 })
      (record { items = three_proxies; total = 3; limit = 8; offset = 0 }) (record { ok = true })
      (codes "Failed") filled_session refl refl

drawer_hides_example :
    drawer en
      (λ t. true)
      (λ l t. t)
      true
      false
      (some (record first_proxy { username = some (codes "alice"); password = some (codes "x") }))
    ≡ drawer en
        (λ t. true)
        (λ l t. t)
        true
        false
        (some (record first_proxy { username = some (codes "alfred"); password = none }))
drawer_hides_example =
    drawer_hides en (λ t. true) (λ l t. t) first_proxy (some (codes "alice"))
      (some (codes "alfred")) (some (codes "x")) none (inl (omega arith, omega arith, refl)) true
      false

matches-updated_example :
    let options = collect_proxy_filter_options (first_proxy ∷ second_proxy ∷ []) in
    let filters = updated (choices_for second_proxy (codes "FR")) default_filters in
    (offers second_proxy.status pools ≡ true)
    × (offers second_proxy.scheme schemes ≡ true)
    × (offers second_proxy.anonymity anonymities ≡ true)
    × (occurrences (codes "FR") options.countries ≡ 1)
    × (occurrences second_proxy.source options.sources ≡ 1)
    × (matches (query_of (λ t. 0) filters 1) second_proxy ≡ true)
matches-updated_example =
    matches-updated (λ t. 0) 1 (first_proxy ∷ []) [] second_proxy (codes "FR") refl refl refl

abbrev two_geo : GeoSummary
two_geo = record {
  coverage = record {
    total_proxies = 3;
    geo_tagged_proxies = 3;
    unresolved_proxies = 0;
    geo_enabled = true;
    geo_file = [];
    geo_file_exists = false;
  };
  countries = record { country = codes "DE"; total = 2; elite = 1; avg_latency_ms = some 300 } ∷ [];
  asns = [];
}

abbrev shown_geo : GeoState
shown_geo = end_load (codes "Failed") 1 (ok two_geo) (run_effect initial_geo)

Reach_has_rows_example :
    ((length two_geo.countries ≡ 0) ⊎ (0 < length (country_items shown_geo two_geo)))
    × ((length two_geo.asns ≡ 0) ⊎ (0 < length (asn_items shown_geo two_geo)))
unfolding end_load run_effect Geo.view
Reach_has_rows_example =
    Reach_has_rows {s = shown_geo} {summary = two_geo}
      (Paging.Reach.step Paging.Reach.start
        (Paging.Step.responded (codes "Failed") 1 (ok two_geo) refl))
      refl

late_answer_example :
    let s' =
      end_load
        (codes "Failed")
        1
        (ok two_geo)
        (guard (codes "Failed") 1 (run_effect initial_geo)) in
    (s'.shown ≡ some two_geo) × (Geo.view s' ≡ Geo.error_view (codes "Failed"))
unfolding run_effect
late_answer_example = late_answer (codes "Failed") two_geo (run_effect initial_geo) refl refl
