-- ===== src/ApiClient/Live.antt =====
-- dashboard/src/lib/api-client.ts: the payloads of the live API. A payload that the client passes on as
-- it is has the type of the dashboard's own record.
use proxy_pool_architect.Base.{ℕ, Bool, Option, List}
use proxy_pool_architect.Base.Text.{Text}
use proxy_pool_architect.Types.Unions.{
  ProxyPool, ProxyScheme, ProxyAnonymity, DbStatus, SchedulerStatus,
}
use proxy_pool_architect.Types.Records.{
  Ratio, GeoCoverageSummary, GeoCountrySummary, GeoAsnSummary, ProviderSummary,
}

-- The status of this payload is always "ok".
pub record LiveHealthResponse : Type 0 where
  pub app : Text
  pub version : Text
  pub environment : Text
  pub db_configured : Bool
  pub db : Option DbStatus
  pub scheduler : Option SchedulerStatus

pub record LiveStatsResponse : Type 0 where
  pub pools : Option (ProxyPool → Option ℕ)
  pub total : ℕ
  pub average_latency_ms : Option ℕ
  pub success_rate : Option Ratio
  pub raw : Option ℕ
  pub checked : Option ℕ
  pub elite : Option ℕ
  pub dead : Option ℕ
  pub cooldown : Option ℕ
  pub last_fetch_at : Option Text
  pub last_validate_at : Option Text
  pub db_status : Option DbStatus
  pub scheduler_status : Option SchedulerStatus

pub record LiveProxyResponse : Type 0 where
  pub id : Text
  pub scheme : ProxyScheme
  pub host : Text
  pub port : ℕ
  pub auth_required : Bool
  pub source : Text
  pub country : Option Text
  pub asn : Option Text
  pub anonymity : ProxyAnonymity
  pub latency_ms : Option ℕ
  pub success_count : ℕ
  pub fail_count : ℕ
  pub consecutive_fail_count : ℕ
  pub score : ℕ
  pub last_checked_at : Option Text
  pub last_success_at : Option Text
  pub last_error : Option Text
  pub cooldown_until : Option Text
  pub status : ProxyPool

pub record LiveProxyListResponse : Type 0 where
  pub items : Option (List LiveProxyResponse)
  pub total : Option ℕ
  pub proxies : Option (List LiveProxyResponse)
  pub count : Option ℕ
  pub limit : ℕ
  pub offset : ℕ

pub record LiveDeleteProxyResponse : Type 0 where
  pub proxy_id : Text
  pub deleted : Bool

pub record LiveGeoSummaryResponse : Type 0 where
  pub coverage : Option GeoCoverageSummary
  pub countries : Option (List GeoCountrySummary)
  pub asns : Option (List GeoAsnSummary)

pub record LiveProvidersResponse : Type 0 where
  pub items : List ProviderSummary
