-- ===== src/ApiClient/Operations.antt =====
-- dashboard/src/lib/api-client.ts: the interface `DashboardApiClient`, as the calls of its methods and
-- their effect on the state.
use proxy_pool_architect.Base.{ℕ, Option}
use proxy_pool_architect.Base.Text.{Text}
use proxy_pool_architect.Types.Unions.{ProxyUrlImportFileType}
use proxy_pool_architect.Types.Records.{ProxyListQuery, DashboardSettings}
use proxy_pool_architect.ApiClient.Call.{ClientState, Server}
use proxy_pool_architect.ApiClient.Client.{
  DashboardDataMode, Environment, get_auth_session, login, logout, get_overview, list_proxies,
  get_proxy, delete_proxy, import_proxy_url, get_proxy_filter_options, get_geo_summary,
  list_providers, list_validation_jobs, list_events, get_settings, update_settings,
}

pub data Operation : Type 0 where
  auth_session : Operation
  log_in : (username password : Text) → Operation
  log_out : Operation
  overview : Operation
  proxies : ProxyListQuery → Operation
  proxy : Text → Operation
  deletion : Text → Operation
  url_import : Text → ProxyUrlImportFileType → Operation
  filter_options : Operation
  geo : Operation
  providers : Operation
  jobs : (limit offset : Option ℕ) → Operation
  events : (limit offset : Option ℕ) → Operation
  settings : Operation
  new_settings : DashboardSettings → Operation

module _ (env : Environment) (server : Server) (timeout_ms : ℕ) (mode : DashboardDataMode) where
  unfoldable pub run : Operation → ClientState → ClientState
  run auth_session s = (get_auth_session env server timeout_ms mode s).1
  run (log_in username password) s = (login env server timeout_ms mode username password s).1
  run log_out s = (logout env server timeout_ms mode s).1
  run overview s = (get_overview env server timeout_ms mode s).1
  run (proxies query) s = (list_proxies env server timeout_ms mode query s).1
  run (proxy id) s = (get_proxy env server timeout_ms mode id s).1
  run (deletion id) s = (delete_proxy env server timeout_ms mode id s).1
  run (url_import url file_type) s = (import_proxy_url env server timeout_ms mode url file_type s).1
  run filter_options s = (get_proxy_filter_options env server timeout_ms mode s).1
  run geo s = (get_geo_summary env server timeout_ms mode s).1
  run providers s = (list_providers env server timeout_ms mode s).1
  run (jobs limit offset) s = (list_validation_jobs env server timeout_ms mode limit offset s).1
  run (events limit offset) s = (list_events env server timeout_ms mode limit offset s).1
  run settings s = (get_settings env server timeout_ms mode s).1
  run (new_settings next) s = (update_settings env server timeout_ms mode next s).1
