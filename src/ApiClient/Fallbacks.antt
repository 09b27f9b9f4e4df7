-- ===== src/ApiClient/Fallbacks.antt =====
-- dashboard/src/lib/api-client.ts: what the client does when the server does not know a path.
use proxy_pool_architect.Base.{ℕ, true, ◌≡◌, refl, none, [], ◌∷◌, or_else}
use proxy_pool_architect.Base.Text.{codes, includes}
use proxy_pool_architect.Effects.{Exception, api_error, ok, err}
use proxy_pool_architect.Types.Records.{DashboardSettings}
use proxy_pool_architect.Derive.{derive_geo_summary, derive_provider_summaries}
use proxy_pool_architect.ApiClient.Http.{Response, answered, fetch_outcome}
use proxy_pool_architect.ApiClient.Errors.{fetch_outcome_no_detail}
use proxy_pool_architect.ApiClient.Live.{LiveGeoSummaryResponse, LiveProxyListResponse}
use proxy_pool_architect.ApiClient.Normalize.{live_items}
use proxy_pool_architect.ApiClient.Requests.{
  Method, Request, Body, path, get_from, build_live_proxy_list_path,
}
use proxy_pool_architect.ApiClient.Call.{ClientState, Server, cached_all, is_not_found}
use proxy_pool_architect.ApiClient.Client.{
  Environment, live, any_proxy, load_live_proxy_universe, get_geo_summary, list_providers,
  get_settings, update_settings,
}

abbrev pub geo_request : Request
geo_request = get_from (path (codes "/geo/summary"))

abbrev pub providers_request : Request
providers_request = get_from (path (codes "/providers"))

abbrev pub settings_request : Request
settings_request = get_from (path (codes "/settings"))

abbrev pub new_settings_request : DashboardSettings → Request
new_settings_request next = record {
  method = Method.patch;
  target = path (codes "/settings");
  body = Body.settings next;
}

module _ (env : Environment) (server : Server) (timeout_ms : ℕ) where
  abbrev pub universe_request : Request
  universe_request = get_from (build_live_proxy_list_path (any_proxy env server timeout_ms))

  -- In the live mode, if the server says "not found" for the geo summary and then lists its proxies, the
  -- client gives the summary of those, has sent these two requests and no other, and has put the proxies
  -- in its cache.
  pub get_geo_summary_derived :
      (s : ClientState) {e : Exception} {r : LiveProxyListResponse}
      → fetch_outcome timeout_ms (server.geo s.sent geo_request) ≡ err e
      → is_not_found e ≡ true
      → fetch_outcome timeout_ms (server.proxies (geo_request ∷ s.sent) universe_request) ≡ ok r
      → get_geo_summary env server timeout_ms live s ≡ (
        ok (derive_geo_summary (live_items r)),
        record s {
          cache = cached_all (live_items r) s.cache;
          sent = universe_request ∷ geo_request ∷ s.sent;
        },
      )
  unfolding get_geo_summary
  get_geo_summary_derived s fails missing listed =
      rw (fails, missing, load_live_proxy_universe, listed) refl

  -- The same for the list of providers.
  pub list_providers_derived :
      (s : ClientState) {e : Exception} {r : LiveProxyListResponse}
      → fetch_outcome timeout_ms (server.providers s.sent providers_request) ≡ err e
      → is_not_found e ≡ true
      → fetch_outcome timeout_ms (server.proxies (providers_request ∷ s.sent) universe_request)
        ≡ ok r
      → list_providers env server timeout_ms live s ≡ (
        ok (derive_provider_summaries (live_items r)),
        record s {
          cache = cached_all (live_items r) s.cache;
          sent = universe_request ∷ providers_request ∷ s.sent;
        },
      )
  unfolding list_providers
  list_providers_derived s fails missing listed =
      rw (fails, missing, load_live_proxy_universe, listed) refl

  -- In the live mode, a server that says "not found" for the geo summary by a JSON body without a detail
  -- gets no second request: the client rejects, since the status is lost with the error that comes of reading twice.
  pub get_geo_summary_no_detail :
      (s : ClientState) (r : Response LiveGeoSummaryResponse)
      → server.geo s.sent geo_request ≡ answered r
      → r.status ≡ 404
      → includes (codes "application/json") (or_else r.content_type []) ≡ true
      → r.as_detail ≡ ok none
      → get_geo_summary env server timeout_ms live s
        ≡ (err (api_error r.reread none), record s { sent = geo_request ∷ s.sent })
  unfolding get_geo_summary
  get_geo_summary_no_detail s r answer status json no_detail =
      rw (answer, fetch_outcome_no_detail timeout_ms r (rw status refl) json no_detail) refl

  -- In the live mode, if the server says "not found" both when settings are changed and when they are
  -- read afterwards, the client gives the settings that it was told to save, in either step.
  pub get_settings-update_settings :
      (next : DashboardSettings) (s : ClientState) {e f : Exception}
      → fetch_outcome timeout_ms (server.settings s.sent (new_settings_request next)) ≡ err e
      → is_not_found e ≡ true
      → fetch_outcome timeout_ms
          (server.settings (new_settings_request next ∷ s.sent) settings_request)
        ≡ err f
      → is_not_found f ≡ true
      → ((update_settings env server timeout_ms live next s).0 ≡ ok next)
        × ((get_settings env server timeout_ms live
              (update_settings env server timeout_ms live next s).1).0
            ≡ ok next)
  unfolding get_settings update_settings
  get_settings-update_settings next s refused missing unknown missing' =
      (rw (refused, missing) refl, rw (refused, missing, unknown, missing') refl)
