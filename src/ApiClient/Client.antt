-- ===== src/ApiClient/Client.antt =====
-- dashboard/src/lib/api-client.ts: the methods that `createDashboardApiClient` returns, in the source's
-- order.
pub use proxy_pool_architect.ApiClient.Loading.{
  DashboardDataMode, mock, live, Environment, both, load_overview, snapshot_query, any_proxy,
  on_not_found,
}
unfoldable pub use proxy_pool_architect.ApiClient.Loading.{load_live_proxy_universe}
use proxy_pool_architect.Base.{ℕ, Option, none, some, List, ◌++◌, if◌then◌else◌, or_else}
use proxy_pool_architect.Base.Text.{Text, codes}
use proxy_pool_architect.Effects.{Exception, api_error, ok, err}
use proxy_pool_architect.Types.Unions.{ProxyUrlImportFileType}
use proxy_pool_architect.Types.Records.{
  ProxyEndpoint, AuthSessionStatus, OverviewData, ProxyListQuery, ProxyListResponse,
  PaginatedResponse, DeleteProxyResult, ProxyUrlImportResult, ProxyFilterOptions, GeoSummary,
  ProviderSummary, ValidationJob, EventLogEntry, DashboardSettings,
}
use proxy_pool_architect.ProxyList.{collect_proxy_filter_options}
use proxy_pool_architect.Derive.{derive_geo_summary, derive_provider_summaries}
use proxy_pool_architect.MockStore.{
  get_mock_auth_session, login_mock_dashboard, logout_mock_dashboard, get_mock_overview_data,
  list_mock_proxies, get_mock_proxy, delete_mock_proxy, get_mock_proxy_filter_options,
  get_mock_geo_summary, get_mock_providers, get_mock_validation_jobs, get_mock_events,
  get_mock_settings, update_mock_settings,
}
use proxy_pool_architect.MockStore.Import.{submit_mock_proxy_url}
use proxy_pool_architect.ApiClient.Normalize.{
  normalize_live_proxy, normalize_geo_summary, overview_of, live_items, live_page,
}
use proxy_pool_architect.ApiClient.Requests.{
  Method, path, proxy_path, no_body, credentials, import_url, settings, get_from,
  build_pagination_path, build_live_proxy_list_path,
}
use proxy_pool_architect.ApiClient.Call.{
  Server, Call, ◌>>=◌, ◌>>◌, pure, try_catch, on_mock, on_mock_result, from_mock, from_mock_result,
  fetch_json, cache_proxy, cache_proxies, uncache_proxy, cached, is_not_found,
}

module _ (env : Environment) (server : Server) (timeout_ms : ℕ) where
  unfoldable pub get_auth_session : DashboardDataMode → Call AuthSessionStatus
  unfolding get_mock_auth_session
  get_auth_session mock = pure get_mock_auth_session
  get_auth_session live =
      fetch_json timeout_ms server.auth (get_from (path (codes "/auth/session")))

  unfoldable pub login : DashboardDataMode → Text → Text → Call AuthSessionStatus
  unfolding login_mock_dashboard
  login mock username password = pure (login_mock_dashboard username password)
  login live username password = fetch_json timeout_ms server.auth (record {
    method = Method.post;
    target = path (codes "/auth/login");
    body = credentials username password;
  })

  unfoldable pub logout : DashboardDataMode → Call AuthSessionStatus
  unfolding logout_mock_dashboard
  logout mock = pure logout_mock_dashboard
  logout live =
      fetch_json timeout_ms server.auth
        (record { method = Method.post; target = path (codes "/auth/logout"); body = no_body })

  unfoldable pub get_overview : DashboardDataMode → Call OverviewData
  unfolding get_mock_overview_data overview_of
  get_overview mock = pure (get_mock_overview_data env.now)
  get_overview live = load_overview env server timeout_ms

  unfoldable pub list_proxies : DashboardDataMode → ProxyListQuery → Call ProxyListResponse
  unfolding list_mock_proxies live_page
  list_proxies mock query = from_mock (list_mock_proxies env.date_parse query)
  list_proxies live query = do
    response ← fetch_json timeout_ms server.proxies (get_from (build_live_proxy_list_path query))
    cache_proxies (live_items response)
    pure (live_page response)

  abbrev pub fetch_proxy : Text → Call ProxyEndpoint
  fetch_proxy proxy_id = do
    response ← fetch_json timeout_ms server.proxy (get_from (proxy_path proxy_id))
    cache_proxy (normalize_live_proxy response)
    pure (normalize_live_proxy response)

  -- The `catch` of `getProxy`.
  abbrev pub proxy_fallback : Text → Exception → Call ProxyEndpoint
  proxy_fallback proxy_id error s = elim (cached proxy_id s.cache) [
    | some item ↦ (ok item, s)
    | none ↦
        if is_not_found error
        then (
          err (api_error (codes "Proxy " ++ (proxy_id ++ codes " was not found.")) (some 404)),
          s,
        )
        else (err error, s)
  ]

  unfoldable pub get_proxy : DashboardDataMode → Text → Call ProxyEndpoint
  unfolding get_mock_proxy normalize_live_proxy
  get_proxy mock proxy_id = from_mock_result (get_mock_proxy proxy_id)
  get_proxy live proxy_id = try_catch (fetch_proxy proxy_id) (proxy_fallback proxy_id)

  unfoldable pub delete_proxy : DashboardDataMode → Text → Call DeleteProxyResult
  unfolding delete_mock_proxy
  delete_proxy mock proxy_id = on_mock (delete_mock_proxy proxy_id)
  delete_proxy live proxy_id = do
    response ←
        fetch_json timeout_ms server.deletion
          (record { method = Method.delete; target = proxy_path proxy_id; body = no_body })
    uncache_proxy proxy_id
    pure (record { ok = response.deleted })

  unfoldable pub import_proxy_url :
      DashboardDataMode → Text → ProxyUrlImportFileType → Call ProxyUrlImportResult
  unfolding submit_mock_proxy_url
  import_proxy_url mock url file_type =
      on_mock_result (submit_mock_proxy_url env.hostname url file_type)
  import_proxy_url live url file_type = fetch_json timeout_ms server.url_import (record {
    method = Method.post;
    target = path (codes "/providers/import-url");
    body = import_url url file_type;
  })

  unfoldable pub get_proxy_filter_options : DashboardDataMode → Call ProxyFilterOptions
  unfolding get_mock_proxy_filter_options load_live_proxy_universe
  get_proxy_filter_options mock = from_mock get_mock_proxy_filter_options
  get_proxy_filter_options live = do
    universe ← load_live_proxy_universe env server timeout_ms (any_proxy env server timeout_ms)
    pure (collect_proxy_filter_options universe)

  unfoldable pub get_geo_summary : DashboardDataMode → Call GeoSummary
  unfolding get_mock_geo_summary load_live_proxy_universe
  get_geo_summary mock = from_mock get_mock_geo_summary
  get_geo_summary live =
      try_catch
        (do
          response ← fetch_json timeout_ms server.geo (get_from (path (codes "/geo/summary")))
          pure (normalize_geo_summary response))
        (on_not_found env server timeout_ms (do
          universe ←
              load_live_proxy_universe env server timeout_ms (any_proxy env server timeout_ms)
          pure (derive_geo_summary universe)))

  unfoldable pub list_providers : DashboardDataMode → Call (List ProviderSummary)
  unfolding get_mock_providers load_live_proxy_universe
  list_providers mock = from_mock get_mock_providers
  list_providers live =
      try_catch
        (do
          response ← fetch_json timeout_ms server.providers (get_from (path (codes "/providers")))
          pure response.items)
        (on_not_found env server timeout_ms (do
          universe ←
              load_live_proxy_universe env server timeout_ms (any_proxy env server timeout_ms)
          pure (derive_provider_summaries universe)))

  unfoldable pub list_validation_jobs :
      DashboardDataMode → Option ℕ → Option ℕ → Call (PaginatedResponse ValidationJob)
  unfolding get_mock_validation_jobs
  list_validation_jobs mode limit offset =
      let l = or_else limit 10 in
      let o = or_else offset 0 in
      let from_store : Call (PaginatedResponse ValidationJob) =
        pure (get_mock_validation_jobs env.hours_ago l o) in
      elim mode [
        | mock ↦ from_store
        | live ↦
            try_catch
              (fetch_json timeout_ms server.jobs
                (get_from (build_pagination_path (codes "/validation/jobs") l o)))
              (on_not_found env server timeout_ms from_store)
      ]

  unfoldable pub list_events :
      DashboardDataMode → Option ℕ → Option ℕ → Call (PaginatedResponse EventLogEntry)
  unfolding get_mock_events
  list_events mode limit offset =
      let l = or_else limit 20 in
      let o = or_else offset 0 in
      let from_store : Call (PaginatedResponse EventLogEntry) =
        pure (get_mock_events env.hours_ago l o) in
      elim mode [
        | mock ↦ from_store
        | live ↦
            try_catch
              (fetch_json timeout_ms server.events
                (get_from (build_pagination_path (codes "/events") l o)))
              (on_not_found env server timeout_ms from_store)
      ]

  unfoldable pub get_settings : DashboardDataMode → Call DashboardSettings
  unfolding get_mock_settings
  get_settings mock = from_mock get_mock_settings
  get_settings live =
      try_catch (fetch_json timeout_ms server.settings (get_from (path (codes "/settings"))))
        (on_not_found env server timeout_ms (from_mock get_mock_settings))

  unfoldable pub update_settings : DashboardDataMode → DashboardSettings → Call DashboardSettings
  unfolding update_mock_settings
  update_settings mock next = on_mock (update_mock_settings next)
  update_settings live next =
      try_catch
        (fetch_json timeout_ms server.settings (record {
          method = Method.patch;
          target = path (codes "/settings");
          body = settings next;
        }))
        (on_not_found env server timeout_ms (on_mock (update_mock_settings next)))
