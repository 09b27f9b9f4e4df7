-- ===== src/ApiClient/Loading.antt =====
-- dashboard/src/lib/api-client.ts: the modes of the client, what the browser provides, and the functions
-- that its methods share. The environment's `Date.parse`, clock, current time and URL parser are those
-- that the mock store takes.
use proxy_pool_architect.Base.{ℕ, Bool, Option, none, some, List, if◌then◌else◌}
use proxy_pool_architect.Base.Text.{Text, codes}
use proxy_pool_architect.Effects.{Exception, Result, ok, err}
use proxy_pool_architect.Types.Records.{ProxyEndpoint, OverviewData, ProxyListQuery}
use proxy_pool_architect.ApiClient.Live.{LiveHealthResponse, LiveStatsResponse}
use proxy_pool_architect.ApiClient.Normalize.{overview_of, live_items}
use proxy_pool_architect.ApiClient.Requests.{
  path, get_from, live_proxy_snapshot_limit, build_live_proxy_list_path,
}
use proxy_pool_architect.ApiClient.Call.{
  Server, Call, ◌>>=◌, ◌>>◌, pure, reject, fetch_json, cache_proxies, is_not_found,
}

pub data DashboardDataMode : Type 0 where
  mock live : DashboardDataMode

-- What the browser provides: `Date.parse`, the time some hours ago, the time now, and the host name of
-- a URL that can be parsed.
pub record Environment : Type 0 where
  pub date_parse : Text → Option ℕ
  pub hours_ago : ℕ → Text
  pub now : Text
  pub hostname : Text → Option Text

module _ (env : Environment) (server : Server) (timeout_ms : ℕ) where
  -- The result of the two requests that `Promise.all` waits for.
  abbrev pub both :
      Bool → Result LiveHealthResponse → Result LiveStatsResponse → Result OverviewData
  both health_first (ok health) (ok stats) = ok (overview_of health stats)
  both health_first (ok health) (err e) = err e
  both health_first (err e) (ok stats) = err e
  both health_first (err e) (err f) = err (if health_first then e else f)

  abbrev pub load_overview : Call OverviewData
  load_overview s =
      let (health, s') =
        fetch_json timeout_ms server.health (get_from (path (codes "/health"))) s in
      let (stats, s'') = fetch_json timeout_ms server.stats (get_from (path (codes "/stats"))) s' in
      (both (server.health_rejects_first s.sent) health stats, s'')

  abbrev pub snapshot_query : ProxyListQuery → ProxyListQuery
  snapshot_query query = record query { limit = some live_proxy_snapshot_limit; offset = some 0 }

  unfoldable pub load_live_proxy_universe : ProxyListQuery → Call (List ProxyEndpoint)
  unfolding live_items
  load_live_proxy_universe query = do
    response ←
        fetch_json timeout_ms server.proxies
          (get_from (build_live_proxy_list_path (snapshot_query query)))
    cache_proxies (live_items response)
    pure (live_items response)

  abbrev pub any_proxy : ProxyListQuery
  any_proxy = record {
    pool = none;
    scheme = none;
    anonymity = none;
    country = none;
    source = none;
    min_score = none;
    q = none;
    limit = some live_proxy_snapshot_limit;
    offset = some 0;
  }

  -- `catch (error)`: any error but "not found" is thrown again, and for that the fallback is taken.
  abbrev pub on_not_found : {A : Type 0} → Call A → Exception → Call A
  on_not_found fallback error = if is_not_found error then fallback else reject error
