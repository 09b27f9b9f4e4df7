-- ===== src/Types/Records.antt =====
-- dashboard/src/types.ts: the interfaces.
use proxy_pool_architect.Base.{ℕ, Bool, Option, List}
use proxy_pool_architect.Base.Text.{Text}
use proxy_pool_architect.Types.Unions.{
  ProxyPool, ProxyScheme, ProxyAnonymity, DbStatus, SchedulerStatus, HealthLevel,
  ProxyUrlImportFileType, ProxyUrlImportDetectedFormat, ProxyUrlImportConnectionMode, JobStatus,
  EventLevel, AuthMethod, DashboardRoute,
}

pub record ProxyEndpoint : Type 0 where
  pub id : Text
  pub scheme : ProxyScheme
  pub host : Text
  pub port : ℕ
  pub auth_required : Option Bool
  pub username : Option Text
  pub password : Option Text
  pub source : Text
  pub country : Option Text
  pub asn : Option Text
  pub anonymity : ProxyAnonymity
  pub latency_ms : Option ℕ
  pub success_count : ℕ
  pub fail_count : ℕ
  pub consecutive_fail_count : Option ℕ
  pub score : ℕ
  pub last_checked_at : Option Text
  pub last_success_at : Option Text
  pub last_error : Option Text
  pub cooldown_until : Option Text
  pub status : ProxyPool

-- A number that the program gets by one division of natural numbers.
pub record Ratio : Type 0 where
  pub num : ℕ
  pub den : ℕ

pub record DashboardStats : Type 0 where
  pub raw : ℕ
  pub checked : ℕ
  pub elite : ℕ
  pub dead : ℕ
  pub cooldown : ℕ
  pub avg_latency_ms : Option ℕ
  pub success_rate : Option Ratio
  pub last_fetch_at : Option Text
  pub last_validate_at : Option Text
  pub db_status : DbStatus
  pub scheduler_status : SchedulerStatus

pub record HealthStatus : Type 0 where
  pub status : HealthLevel
  pub db : DbStatus
  pub scheduler : SchedulerStatus

pub record OverviewData : Type 0 where
  pub stats : DashboardStats
  pub health : HealthStatus

pub record ProxyListQuery : Type 0 where
  pub pool : Option ProxyPool
  pub scheme : Option ProxyScheme
  pub anonymity : Option ProxyAnonymity
  pub country : Option Text
  pub source : Option Text
  pub min_score : Option ℕ
  pub q : Option Text
  pub limit : Option ℕ
  pub offset : Option ℕ

pub record PaginatedResponse (T : Type 0) : Type 0 where
  pub items : List T
  pub total : ℕ
  pub limit : ℕ
  pub offset : ℕ

-- `ProxyListResponse` has the fields of `PaginatedResponse<ProxyEndpoint>`.
abbrev pub ProxyListResponse : Type 0
ProxyListResponse = PaginatedResponse ProxyEndpoint

pub record ProxyFilterOptions : Type 0 where
  pub countries : List Text
  pub sources : List Text

pub record DeleteProxyResult : Type 0 where
  pub ok : Bool

pub record GeoCountrySummary : Type 0 where
  pub country : Text
  pub total : ℕ
  pub elite : ℕ
  pub avg_latency_ms : Option ℕ

pub record GeoAsnSummary : Type 0 where
  pub asn : Text
  pub total : ℕ
  pub elite : ℕ
  pub avg_latency_ms : Option ℕ

pub record GeoCoverageSummary : Type 0 where
  pub total_proxies : ℕ
  pub geo_tagged_proxies : ℕ
  pub unresolved_proxies : ℕ
  pub geo_enabled : Bool
  pub geo_file : Text
  pub geo_file_exists : Bool

pub record GeoSummary : Type 0 where
  pub coverage : GeoCoverageSummary
  pub countries : List GeoCountrySummary
  pub asns : List GeoAsnSummary

pub record ProviderSummary : Type 0 where
  pub name : Text
  pub enabled : Bool
  pub last_fetch_at : Option Text
  pub fetched_count : ℕ
  pub valid_count : ℕ
  pub last_error : Option Text

pub record ProxyUrlImportResult : Type 0 where
  pub source : Text
  pub file_type : ProxyUrlImportFileType
  pub detected_format : ProxyUrlImportDetectedFormat
  pub fetched_count : ℕ
  pub valid_count : ℕ
  pub stored_count : ℕ
  pub duplicate_count : ℕ
  pub invalid_count : ℕ
  pub direct_supported_count : ℕ
  pub adapter_required_count : ℕ
  pub unsupported_count : ℕ
  pub detected_protocols : List Text
  pub supported_connection_modes : List ProxyUrlImportConnectionMode

pub record ValidationJob : Type 0 where
  pub id : Text
  pub started_at : Text
  pub finished_at : Option Text
  pub checked_count : ℕ
  pub success_count : ℕ
  pub fail_count : ℕ
  pub timeout_count : ℕ
  pub status : JobStatus

pub record EventLogEntry : Type 0 where
  pub id : Text
  pub type : Text
  pub level : EventLevel
  pub message : Text
  pub created_at : Text

pub record SafeNetworkingSettings : Type 0 where
  pub authorized_targets_only : Bool
  pub block_private_networks : Bool
  pub mask_proxy_credentials : Bool

pub record DashboardSettings : Type 0 where
  pub fetch_interval_seconds : ℕ
  pub validate_interval_seconds : ℕ
  pub validate_timeout_seconds : ℕ
  pub validate_concurrency : ℕ
  pub min_elite_score : ℕ
  pub cooldown_seconds : ℕ
  pub safe_networking : SafeNetworkingSettings

pub record AuthSessionStatus : Type 0 where
  pub enabled : Bool
  pub authenticated : Bool
  pub username : Option Text
  pub expires_at : Option Text
  pub auth_method : Option AuthMethod

pub record NavigationItem : Type 0 where
  pub route : DashboardRoute
  pub label_key : Text
