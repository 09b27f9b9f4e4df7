-- ===== src/MockStore.antt =====
-- dashboard/src/lib/mock-data.ts: the data source of the mock mode. Its state is the two variables
-- that the module writes; a function returns its result with the new state where it writes one.
-- The delay before a promise resolves does not change its value and is left out. Parameters:
-- `hours_ago` is the clock, `date_parse` is `Date.parse`, and `hostname` is that of `new URL(url)`,
-- `none` where the constructor throws. `Import` has the import of a URL.
pub mod Create
pub mod Seed
pub mod Activity
pub mod Import
pub mod Paging
pub mod Deletion
pub mod Imports
pub mod Reachable
pub mod Catalogue
use proxy_pool_architect.Base.{
  ℕ, ◌+◌, ◌-◌, Bool, true, false, not, Option, none, some, List, [], ◌∷◌, ◌++◌, map, filter, find,
  length, slice, ltb, or_else, if◌then◌else◌, any,
}
use proxy_pool_architect.Base.Text.{Text, codes, text_beq, truthy, has}
use proxy_pool_architect.Effects.{Exception, js_error, Result, ok, err}
use proxy_pool_architect.Types.Unions.{AuthMethod}
use proxy_pool_architect.Types.Records.{
  ProxyEndpoint, ProxyListQuery, ProxyListResponse, PaginatedResponse, ProxyFilterOptions,
  DeleteProxyResult, GeoSummary, ProviderSummary, ProxyUrlImportResult, ValidationJob,
  EventLogEntry, DashboardSettings, AuthSessionStatus, OverviewData,
}
use proxy_pool_architect.ProxyList.{filter_and_sort_proxies, collect_proxy_filter_options}
use proxy_pool_architect.Derive.{derive_geo_summary, derive_provider_summaries}
use proxy_pool_architect.MockStore.Seed.{build_mock_proxy_store}
use proxy_pool_architect.MockStore.Activity.{
  mock_settings, mock_auth_session, mock_health, mock_stats, mock_validation_jobs, mock_events,
}

pub record MockState : Type 0 where
  pub proxies : List ProxyEndpoint
  pub settings : DashboardSettings

unfoldable pub initial_mock_state : (ℕ → Text) → MockState
unfolding build_mock_proxy_store
initial_mock_state hours_ago = record {
  proxies = build_mock_proxy_store hours_ago;
  settings = mock_settings;
}

unfoldable pub paginate_items : {T : Type 0} → List T → ℕ → ℕ → PaginatedResponse T
paginate_items items limit offset = record {
  items = slice offset (offset + limit) items;
  total = length items;
  limit = limit;
  offset = offset;
}

unfoldable pub get_mock_overview_data : (now : Text) → OverviewData
get_mock_overview_data now = record { stats = mock_stats now; health = mock_health }

-- A clone of a proxy is the same value.
unfoldable pub list_mock_proxies :
    (Text → Option ℕ) → ProxyListQuery → MockState → ProxyListResponse
unfolding filter_and_sort_proxies
list_mock_proxies date_parse query s =
    let limit = or_else query.limit 8 in
    let offset = or_else query.offset 0 in
    let filtered = filter_and_sort_proxies date_parse s.proxies query in
    record {
      items = slice offset (offset + limit) filtered;
      total = length filtered;
      limit = limit;
      offset = offset;
    }

abbrev pub has_id : Text → ProxyEndpoint → Bool
has_id proxy_id item = text_beq item.id proxy_id

unfoldable pub get_mock_proxy : Text → MockState → Result ProxyEndpoint
get_mock_proxy proxy_id s = elim (find (has_id proxy_id) s.proxies) [
  | none ↦ err (js_error (codes "Proxy not found: " ++ proxy_id))
  | some proxy ↦ ok proxy
]

unfoldable pub delete_mock_proxy : Text → MockState → DeleteProxyResult × MockState
delete_mock_proxy proxy_id s =
    let kept = filter (λ proxy. not (has_id proxy_id proxy)) s.proxies in
    (record { ok = ltb (length kept) (length s.proxies) }, record s { proxies = kept })

unfoldable pub get_mock_proxy_filter_options : MockState → ProxyFilterOptions
unfolding collect_proxy_filter_options
get_mock_proxy_filter_options s = collect_proxy_filter_options s.proxies

unfoldable pub get_mock_geo_summary : MockState → GeoSummary
unfolding derive_geo_summary
get_mock_geo_summary s = derive_geo_summary s.proxies

unfoldable pub get_mock_providers : MockState → List ProviderSummary
unfolding derive_provider_summaries
get_mock_providers s = derive_provider_summaries s.proxies

module _ (hours_ago : ℕ → Text) where
  unfoldable pub get_mock_validation_jobs : ℕ → ℕ → PaginatedResponse ValidationJob
  unfolding paginate_items mock_validation_jobs
  get_mock_validation_jobs limit offset =
      paginate_items (mock_validation_jobs hours_ago) limit offset

  unfoldable pub get_mock_events : ℕ → ℕ → PaginatedResponse EventLogEntry
  unfolding paginate_items mock_events
  get_mock_events limit offset = paginate_items (mock_events hours_ago) limit offset

unfoldable pub get_mock_settings : MockState → DashboardSettings
get_mock_settings s = s.settings

unfoldable pub get_mock_auth_session : AuthSessionStatus
unfolding mock_auth_session
get_mock_auth_session = mock_auth_session

unfoldable pub login_mock_dashboard : (username password : Text) → AuthSessionStatus
login_mock_dashboard username password = record {
  enabled = false;
  authenticated = true;
  username = some username;
  expires_at = none;
  auth_method = some AuthMethod.disabled;
}

unfoldable pub logout_mock_dashboard : AuthSessionStatus
unfolding mock_auth_session
logout_mock_dashboard = mock_auth_session

unfoldable pub update_mock_settings : DashboardSettings → MockState → DashboardSettings × MockState
update_mock_settings next s = (next, record s { settings = next })

unfoldable pub reset_mock_proxy_store : (ℕ → Text) → MockState → MockState
unfolding build_mock_proxy_store
reset_mock_proxy_store hours_ago s = record s { proxies = build_mock_proxy_store hours_ago }
