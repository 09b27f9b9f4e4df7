-- ===== src/Examples/Api.antt =====
-- The client of dashboard/src/lib/api-client.ts with servers that know some of the paths.
use proxy_pool_architect.Base.{◌≡◌, refl, true, none, some, [], ◌∷◌, ◌++◌, any, All}
use proxy_pool_architect.Base.Text.{codes}
use proxy_pool_architect.Effects.{api_error, err, Exception}
use proxy_pool_architect.ApiClient.Http.{fetch_outcome, parse_error, rethrow}
use proxy_pool_architect.ApiClient.Normalize.{normalize_live_proxy, live_items, live_page}
use proxy_pool_architect.ApiClient.Call.{ClientState}
use proxy_pool_architect.ApiClient.Client.{
  mock, live, list_proxies, get_proxy, delete_proxy, get_geo_summary, list_providers,
  get_proxy_filter_options,
}
use proxy_pool_architect.ApiClient.Operations.{run, providers}
use proxy_pool_architect.ApiClient.Cache.{
  GetsListed, get_proxy-list_proxies, get_proxy-delete_proxy,
}
use proxy_pool_architect.ApiClient.Modes.{IsKeyed, run-IsKeyed}
use proxy_pool_architect.ApiClient.Overlap.{
  listed, removed, arrive_all, names, is_ok, get_proxy-arrive_all,
}
use proxy_pool_architect.ApiClient.Agreement.{live_mock_same}
use proxy_pool_architect.ApiClient.Fallbacks.{geo_request, get_geo_summary_no_detail}
use proxy_pool_architect.Examples.Samples.{
  any_query, three_proxies, three_stored, no_state, known_state, browser, listing_server,
  terse_server, terse_response, live_list,
}

abbrev gone : Exception
gone = api_error (codes "gone") (some 404)

get_proxy-list_proxies_example :
    GetsListed browser listing_server 6000
      (codes "a")
      (live_page live_list)
      (list_proxies browser listing_server 6000 live any_query no_state).1
unfolding list_proxies fetch_outcome live_page normalize_live_proxy
get_proxy-list_proxies_example =
    get_proxy-list_proxies browser listing_server 6000 any_query (codes "a") no_state refl refl

get_proxy-delete_proxy_example :
    (failure : Exception) × ((get_proxy browser listing_server 6000 live
        (codes "a")
        (delete_proxy browser listing_server 6000 live (codes "a") known_state).1).0
      ≡ err failure)
unfolding delete_proxy fetch_outcome rethrow parse_error
get_proxy-delete_proxy_example =
    get_proxy-delete_proxy browser listing_server 6000 (codes "a") known_state refl refl

run-IsKeyed_example :
    All
      (IsKeyed browser listing_server 6000)
      (run browser listing_server 6000 live providers known_state).cache
run-IsKeyed_example = run-IsKeyed browser listing_server 6000 providers known_state (refl, tt)

get_geo_summary_no_detail_example : get_geo_summary browser terse_server 6000 live no_state ≡ (
  err (api_error (codes "body stream already read") none),
  record no_state { sent = geo_request ∷ [] },
)
get_geo_summary_no_detail_example =
    get_geo_summary_no_detail browser terse_server 6000 no_state terse_response refl refl refl refl

abbrev stored_state : ClientState
stored_state = record no_state { mock = record three_stored { proxies = live_items live_list } }

live_mock_same_example :
    ((get_geo_summary browser listing_server 6000 live stored_state).0
      ≡ (get_geo_summary browser listing_server 6000 mock stored_state).0)
    × ((list_providers browser listing_server 6000 live stored_state).0
        ≡ (list_providers browser listing_server 6000 mock stored_state).0)
    × ((get_proxy_filter_options browser listing_server 6000 live stored_state).0
        ≡ (get_proxy_filter_options browser listing_server 6000 mock stored_state).0)
unfolding fetch_outcome rethrow parse_error
live_mock_same_example =
    live_mock_same browser listing_server 6000 stored_state refl refl refl refl (λ sent. refl) refl

get_proxy-arrive_all_example :
    is_ok
      (get_proxy browser listing_server 6000 live (codes "a") (record known_state {
        cache =
            arrive_all
              (listed three_proxies ∷ [] ++ removed (codes "a") ∷ listed three_proxies ∷ [])
              known_state.cache;
      })).0
    ≡ any (names (codes "a")) (listed three_proxies ∷ [])
unfolding fetch_outcome rethrow parse_error
get_proxy-arrive_all_example =
    get_proxy-arrive_all browser listing_server 6000 (codes "a") (listed three_proxies ∷ [])
      (listed three_proxies ∷ []) known_state refl refl

-- The answer to an older list request brings the proxy back.
names_run : any (names (codes "a")) (listed three_proxies ∷ []) ≡ true
names_run = refl
