-- ===== src/ApiClient/Normalize.antt =====
-- dashboard/src/lib/api-client.ts: how payloads become the dashboard's records.
use proxy_pool_architect.Base.{
  ℕ, Option, none, some, List, [], map, sum_by, length, max, ltb, or_else, or_option, if◌then◌else◌,
}
use proxy_pool_architect.Base.Text.{codes}
use proxy_pool_architect.Types.Unions.{ProxyPool, DbStatus, SchedulerStatus, HealthLevel}
use proxy_pool_architect.Types.Records.{ProxyEndpoint, GeoSummary, OverviewData, ProxyListResponse}
use proxy_pool_architect.ApiClient.Live.{
  LiveHealthResponse, LiveStatsResponse, LiveProxyResponse, LiveProxyListResponse,
  LiveGeoSummaryResponse,
}

unfoldable pub normalize_live_proxy : LiveProxyResponse → ProxyEndpoint
normalize_live_proxy proxy = record {
  id = proxy.id;
  scheme = proxy.scheme;
  host = proxy.host;
  port = proxy.port;
  auth_required = some proxy.auth_required;
  username = none;
  password = none;
  source = proxy.source;
  country = proxy.country;
  asn = proxy.asn;
  anonymity = proxy.anonymity;
  latency_ms = proxy.latency_ms;
  success_count = proxy.success_count;
  fail_count = proxy.fail_count;
  consecutive_fail_count = some proxy.consecutive_fail_count;
  score = proxy.score;
  last_checked_at = proxy.last_checked_at;
  last_success_at = proxy.last_success_at;
  last_error = proxy.last_error;
  cooldown_until = proxy.cooldown_until;
  status = proxy.status;
}

unfoldable pub normalize_geo_summary : LiveGeoSummaryResponse → GeoSummary
normalize_geo_summary payload =
    let countries = or_else payload.countries [] in
    let asns = or_else payload.asns [] in
    let inferred = max (sum_by (λ item. item.total) countries) (sum_by (λ item. item.total) asns) in
    record {
      coverage = or_else payload.coverage (record {
        total_proxies = inferred;
        geo_tagged_proxies = inferred;
        unresolved_proxies = 0;
        geo_enabled = ltb 0 inferred;
        geo_file = codes "";
        geo_file_exists = ltb 0 inferred;
      });
      countries = countries;
      asns = asns;
    }

-- `stats.raw ?? stats.pools?.raw ?? 0`
abbrev pub pool_count : Option ℕ → Option (ProxyPool → Option ℕ) → ProxyPool → ℕ
pool_count own none pool = or_else own 0
pool_count own (some pools) pool = or_else (or_option own (pools pool)) 0

-- `health.db ?? (health.db_configured ? "ok" : "unknown")`
abbrev pub health_db : LiveHealthResponse → DbStatus
health_db health =
    or_else health.db (if health.db_configured then DbStatus.ok else DbStatus.unknown)

unfoldable pub overview_of : LiveHealthResponse → LiveStatsResponse → OverviewData
overview_of health stats = record {
  stats = record {
    raw = pool_count stats.raw stats.pools ProxyPool.raw;
    checked = pool_count stats.checked stats.pools ProxyPool.checked;
    elite = pool_count stats.elite stats.pools ProxyPool.elite;
    dead = pool_count stats.dead stats.pools ProxyPool.dead;
    cooldown = pool_count stats.cooldown stats.pools ProxyPool.cooldown;
    avg_latency_ms = stats.average_latency_ms;
    success_rate = stats.success_rate;
    last_fetch_at = stats.last_fetch_at;
    last_validate_at = stats.last_validate_at;
    db_status = or_else stats.db_status (health_db health);
    scheduler_status =
        or_else (or_option stats.scheduler_status health.scheduler) SchedulerStatus.unknown;
  };
  health = record {
    status = HealthLevel.ok;
    db = health_db health;
    scheduler = or_else health.scheduler SchedulerStatus.unknown;
  };
}

-- `(response.items ?? response.proxies ?? []).map(normalizeLiveProxy)`
unfoldable pub live_items : LiveProxyListResponse → List ProxyEndpoint
unfolding normalize_live_proxy
live_items response =
    map normalize_live_proxy (or_else (or_option response.items response.proxies) [])

unfoldable pub live_page : LiveProxyListResponse → ProxyListResponse
unfolding live_items
live_page response = record {
  items = live_items response;
  total = or_else (or_option response.total response.count) (length (live_items response));
  limit = response.limit;
  offset = response.offset;
}
