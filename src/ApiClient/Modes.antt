-- ===== src/ApiClient/Modes.antt =====
-- dashboard/src/lib/api-client.ts: what the two modes of the client leave alone.
use proxy_pool_architect.Base.{ℕ, ◌≡◌, refl, List, [], ◌∷◌, All, Bool-cases, inl, inr}
use proxy_pool_architect.Base.Text.{Text, text_beq}
use proxy_pool_architect.Types.Records.{ProxyEndpoint}
use proxy_pool_architect.ApiClient.Call.{ClientState, Server, uncached}
use proxy_pool_architect.ApiClient.Client.{
  Environment, mock, live, get_auth_session, login, logout, get_overview, list_proxies, get_proxy,
  delete_proxy, import_proxy_url, get_proxy_filter_options, get_geo_summary, list_providers,
  list_validation_jobs, list_events, get_settings, update_settings,
}
use proxy_pool_architect.ApiClient.Operations.{
  Operation, run, auth_session, log_in, log_out, overview, proxies, proxy, deletion, url_import,
  filter_options, geo, providers, jobs, events, settings, new_settings,
}
use proxy_pool_architect.ApiClient.Stable.{run-Keeps}

module _ (env : Environment) (server : Server) (timeout_ms : ℕ) where
  -- In the mock mode no method of the client sends a request or changes the proxy cache.
  pub run_mock :
      (op : Operation) (s : ClientState)
      → ((run env server timeout_ms mock op s).sent ≡ s.sent)
        × ((run env server timeout_ms mock op s).cache ≡ s.cache)
  unfolding run get_auth_session login logout get_overview list_proxies get_proxy delete_proxy
      import_proxy_url get_proxy_filter_options get_geo_summary list_providers list_validation_jobs
      list_events get_settings update_settings
  run_mock auth_session s = (refl, refl)
  run_mock (log_in username password) s = (refl, refl)
  run_mock log_out s = (refl, refl)
  run_mock overview s = (refl, refl)
  run_mock (proxies query) s = (refl, refl)
  run_mock (proxy id) s = (refl, refl)
  run_mock (deletion id) s = (refl, refl)
  run_mock (url_import url file_type) s = (refl, refl)
  run_mock filter_options s = (refl, refl)
  run_mock geo s = (refl, refl)
  run_mock providers s = (refl, refl)
  run_mock (jobs limit offset) s = (refl, refl)
  run_mock (events limit offset) s = (refl, refl)
  run_mock settings s = (refl, refl)
  run_mock (new_settings next) s = (refl, refl)

  -- In the live mode no method of the client changes the proxies of the mock store.
  pub run_live :
      (op : Operation) (s : ClientState)
      → (run env server timeout_ms live op s).mock.proxies ≡ s.mock.proxies
  run_live op s =
      run-Keeps (λ s'. s'.mock.proxies ≡ s.mock.proxies)
        (record {
          sending = λ s request p. p;
          caching = λ s item p. p;
          uncaching = λ s id p. p;
          setting = λ s next p. p;
        })
        env server timeout_ms op s refl

  -- The cache holds each proxy under its own id.
  abbrev pub IsKeyed : Text × ProxyEndpoint → Type 0
  IsKeyed (k, item) = item.id ≡ k

  uncached-IsKeyed :
      (id : Text) (cache : List (Text × ProxyEndpoint))
      → All IsKeyed cache
      → All IsKeyed (uncached id cache)
  uncached-IsKeyed id [] all = all
  uncached-IsKeyed id ((k, item) ∷ cache) (keyed, all) = elim (Bool-cases (text_beq k id)) [
    | inl same ↦ rw same (uncached-IsKeyed id cache all)
    | inr other ↦ rw other (keyed, uncached-IsKeyed id cache all)
  ]

  -- In the live mode every method keeps it so that each entry of the proxy cache has the id of its proxy
  -- as its key.
  pub run-IsKeyed :
      (op : Operation) (s : ClientState)
      → All IsKeyed s.cache
      → All IsKeyed (run env server timeout_ms live op s).cache
  run-IsKeyed op s all =
      run-Keeps (λ s. All IsKeyed s.cache)
        (record {
          sending = λ s request p. p;
          caching = λ s item p. (refl, p);
          uncaching = λ s id p. uncached-IsKeyed id s.cache p;
          setting = λ s next p. p;
        })
        env server timeout_ms op s all
