-- ===== src/ApiClient/Agreement.antt =====
-- dashboard/src/lib/api-client.ts: the two modes of the client on the same proxies.
use proxy_pool_architect.Base.{ℕ, true, ◌≡◌, ap, List}
use proxy_pool_architect.Effects.{Exception, ok, err}
use proxy_pool_architect.MockStore.{
  get_mock_geo_summary, get_mock_providers, get_mock_proxy_filter_options,
}
use proxy_pool_architect.Derive.{derive_geo_summary, derive_provider_summaries}
use proxy_pool_architect.ProxyList.{collect_proxy_filter_options}
use proxy_pool_architect.ApiClient.Http.{fetch_outcome}
use proxy_pool_architect.ApiClient.Live.{LiveProxyListResponse}
use proxy_pool_architect.ApiClient.Normalize.{live_items}
use proxy_pool_architect.ApiClient.Requests.{Request}
use proxy_pool_architect.ApiClient.Call.{ClientState, Server, is_not_found}
use proxy_pool_architect.ApiClient.Client.{
  Environment, mock, live, load_live_proxy_universe, get_geo_summary, list_providers,
  get_proxy_filter_options,
}
use proxy_pool_architect.ApiClient.Fallbacks.{
  geo_request, providers_request, universe_request, get_geo_summary_derived, list_providers_derived,
}

-- The modes agree: with a server that does not know the paths of the geo summary and of the providers, and
-- whose list of all proxies is what the mock store holds, the client gives the same geo summary, the
-- same providers and the same filter options in the live mode as in the mock mode.
pub live_mock_same :
    (env : Environment) (server : Server) (timeout_ms : ℕ) (s : ClientState) {e f : Exception}
    {r : LiveProxyListResponse}
    → fetch_outcome timeout_ms (server.geo s.sent geo_request) ≡ err e
    → is_not_found e ≡ true
    → fetch_outcome timeout_ms (server.providers s.sent providers_request) ≡ err f
    → is_not_found f ≡ true
    → ((sent : List Request)
        → fetch_outcome timeout_ms (server.proxies sent (universe_request env server timeout_ms))
          ≡ ok r)
    → live_items r ≡ s.mock.proxies
    → ((get_geo_summary env server timeout_ms live s).0
        ≡ (get_geo_summary env server timeout_ms mock s).0)
      × ((list_providers env server timeout_ms live s).0
          ≡ (list_providers env server timeout_ms mock s).0)
      × ((get_proxy_filter_options env server timeout_ms live s).0
          ≡ (get_proxy_filter_options env server timeout_ms mock s).0)
unfolding get_geo_summary list_providers get_proxy_filter_options get_mock_geo_summary
    get_mock_providers get_mock_proxy_filter_options
live_mock_same env server timeout_ms s no_geo missing no_providers missing' lists same = (
  rw (get_geo_summary_derived env server timeout_ms s no_geo missing (lists _))
      (ap (λ l. ok (derive_geo_summary l)) same),
  rw (list_providers_derived env server timeout_ms s no_providers missing' (lists _))
      (ap (λ l. ok (derive_provider_summaries l)) same),
  rw (load_live_proxy_universe, lists s.sent) (ap (λ l. ok (collect_proxy_filter_options l)) same),
)
