-- ===== src/ApiClient/Stable.antt =====
-- dashboard/src/lib/api-client.ts: what every method of the client keeps in the live mode.
use mathlib.Core.Path.{subst}
use proxy_pool_architect.Base.{
  ℕ, sym, arith, or_else, List, Bool-cases, Option-cases, inl, inr, ◌≡◌,
}
use proxy_pool_architect.Base.Text.{Text}
use proxy_pool_architect.Effects.{Exception}
use proxy_pool_architect.Types.Records.{ProxyEndpoint, ProxyListQuery}
use proxy_pool_architect.ApiClient.Requests.{Request}
use proxy_pool_architect.ApiClient.Call.{
  ClientState, Server, Call, Answers, ◌>>=◌, ◌>>◌, pure, reject, try_catch, on_mock, from_mock,
  fetch_json, cache_proxy, cache_proxies, uncache_proxy, cached, is_not_found,
}
use proxy_pool_architect.ApiClient.Normalize.{
  normalize_live_proxy, normalize_geo_summary, live_items, live_page,
}
use proxy_pool_architect.ApiClient.Client.{
  live, Environment, fetch_proxy, snapshot_query, any_proxy, on_not_found, proxy_fallback,
  load_live_proxy_universe, get_auth_session, login, logout, get_overview, list_proxies, get_proxy,
  delete_proxy, import_proxy_url, get_proxy_filter_options, get_geo_summary, list_providers,
  list_validation_jobs, list_events, get_settings, update_settings,
}
use proxy_pool_architect.ApiClient.Operations.{
  Operation, run, auth_session, log_in, log_out, overview, proxies, proxy, deletion, url_import,
  filter_options, geo, providers, jobs, events, settings, new_settings,
}
use proxy_pool_architect.ProxyList.{collect_proxy_filter_options}
use proxy_pool_architect.Derive.{derive_geo_summary, derive_provider_summaries}
use proxy_pool_architect.MockStore.{get_mock_settings, update_mock_settings}
use proxy_pool_architect.ApiClient.Keeping.{
  IsStable, Keeps, ClientRequest, to_session, to_login, to_logout, to_health, to_stats, to_proxies,
  to_proxy, to_deletion, to_import, to_geo, to_providers, to_jobs, to_events, to_settings,
  to_new_settings, bind-Keeps, try_catch-Keeps, if-Keeps, cached_all-stable, fetch-Keeps,
  fetch_or-Keeps,
}

module _ (P : ClientState → Type 0) (stable : IsStable P) where
  module _ (env : Environment) (server : Server) (t : ℕ) where
    universe-Keeps : (q : ProxyListQuery) → Keeps P (load_live_proxy_universe env server t q)
    unfolding load_live_proxy_universe
    universe-Keeps q =
        fetch-Keeps P stable t server.proxies (to_proxies (snapshot_query env server t q))
          (λ r. cache_proxies (live_items r) >> pure (live_items r))
          (λ r s p. cached_all-stable P stable (live_items r) s p)

    after_universe-Keeps :
        {B : Type 0} (q : ProxyListQuery) (k : List ProxyEndpoint → B)
        → Keeps P (load_live_proxy_universe env server t q >>= λ u. pure (k u))
    after_universe-Keeps q k =
        bind-Keeps P (load_live_proxy_universe env server t q) (λ u. pure (k u)) (universe-Keeps q)
          (λ u s p. p)

    proxy_fallback_state :
        (id : Text) (e : Exception) (s : ClientState) → (proxy_fallback env server t id e s).1 ≡ s
    proxy_fallback_state id e s = elim (Option-cases (cached id s.cache)) [
      | inl absent ↦ elim (Bool-cases (is_not_found e)) [
        | inl missing ↦ ground arith
        | inr other ↦ ground arith
      ]
      | inr (item, found) ↦ ground arith
    ]

    fallback-Keeps : (id : Text) (e : Exception) → Keeps P (proxy_fallback env server t id e)
    fallback-Keeps id e s p = subst P (sym (proxy_fallback_state id e s)) p

    get_proxy-Keeps : (id : Text) → Keeps P (get_proxy env server t live id)
    unfolding get_proxy
    get_proxy-Keeps id =
        try_catch-Keeps P (fetch_proxy env server t id) (proxy_fallback env server t id)
          (fetch-Keeps P stable t server.proxy (to_proxy id)
            (λ r. cache_proxy (normalize_live_proxy r) >> pure (normalize_live_proxy r))
            (λ r s p. stable.caching s (normalize_live_proxy r) p))
          (fallback-Keeps id)

    -- A single request with a fallback that the mock serves.
    fetch_mock-Keeps :
        {A : Type 0} (answers : Answers A) {r : Request}
        → ClientRequest r
        → (fallback : Call A) → Keeps P fallback
        → Keeps P (try_catch (fetch_json t answers r) (on_not_found env server t fallback))
    fetch_mock-Keeps answers {r} request fallback h =
        try_catch-Keeps P (fetch_json t answers r) (on_not_found env server t fallback)
          (λ s p. stable.sending s request p)
          (λ e. if-Keeps P (is_not_found e) fallback (reject e) h (λ s p. p))

    pub run-Keeps : (op : Operation) (s : ClientState) → P s → P (run env server t live op s)
    unfolding run get_auth_session login logout get_overview list_proxies delete_proxy
        import_proxy_url get_proxy_filter_options get_geo_summary list_providers
        list_validation_jobs list_events get_settings update_settings
    run-Keeps auth_session s p = stable.sending s to_session p
    run-Keeps (log_in username password) s p = stable.sending s (to_login username password) p
    run-Keeps log_out s p = stable.sending s to_logout p
    run-Keeps overview s p = stable.sending _ to_stats (stable.sending s to_health p)
    run-Keeps (proxies q) s p =
        fetch-Keeps P stable t server.proxies (to_proxies q)
          (λ r. cache_proxies (live_items r) >> pure (live_page r))
          (λ r s p. cached_all-stable P stable (live_items r) s p) s p
    run-Keeps (proxy id) s p = get_proxy-Keeps id s p
    run-Keeps (deletion id) s p =
        fetch-Keeps P stable t server.deletion (to_deletion id)
          (λ r. uncache_proxy id >> pure (record { ok = r.deleted }))
          (λ r s p. stable.uncaching s id p) s p
    run-Keeps (url_import url file_type) s p = stable.sending s (to_import url file_type) p
    run-Keeps filter_options s p =
        after_universe-Keeps (any_proxy env server t) collect_proxy_filter_options s p
    run-Keeps geo s p =
        fetch_or-Keeps P stable env server t server.geo to_geo (λ r. pure (normalize_geo_summary r))
          (load_live_proxy_universe env server t (any_proxy env server t) >>= λ u.
            pure (derive_geo_summary u))
          (λ r s p. p) (after_universe-Keeps (any_proxy env server t) derive_geo_summary) s p
    run-Keeps providers s p =
        fetch_or-Keeps P stable env server t server.providers to_providers (λ r. pure r.items)
          (load_live_proxy_universe env server t (any_proxy env server t) >>= λ u.
            pure (derive_provider_summaries u))
          (λ r s p. p) (after_universe-Keeps (any_proxy env server t) derive_provider_summaries) s p
    run-Keeps (jobs limit offset) s p =
        fetch_mock-Keeps server.jobs (to_jobs (or_else limit 10) (or_else offset 0)) (pure _)
          (λ s p. p) s p
    run-Keeps (events limit offset) s p =
        fetch_mock-Keeps server.events (to_events (or_else limit 20) (or_else offset 0)) (pure _)
          (λ s p. p) s p
    run-Keeps settings s p =
        fetch_mock-Keeps server.settings to_settings (from_mock get_mock_settings) (λ s p. p) s p
    run-Keeps (new_settings next) s p =
        fetch_mock-Keeps server.settings (to_new_settings next)
          (on_mock (update_mock_settings next)) (λ s p. stable.setting s next p) s p
