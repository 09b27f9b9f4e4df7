-- ===== src/Types/Unions.antt =====
-- dashboard/src/types.ts: the unions of string literals.
use proxy_pool_architect.Base.{ℕ, true, ◌≡◌, ◌↔◌, arith, Equality, nat_beq}
use proxy_pool_architect.Base.Text.{Text, codes}

pub data ProxyPool : Type 0 where
  raw checked elite dead cooldown : ProxyPool

pub data ProxyScheme : Type 0 where
  http https socks4 socks5 : ProxyScheme

pub data ProxyAnonymity : Type 0 where
  unknown transparent anonymous elite : ProxyAnonymity

pub data DbStatus : Type 0 where
  ok error unknown : DbStatus

pub data SchedulerStatus : Type 0 where
  running stopped unknown : SchedulerStatus

pub data HealthLevel : Type 0 where
  ok error unknown : HealthLevel

pub data ProxyUrlImportFileType : Type 0 where
  auto http socks5 all clash v2ray : ProxyUrlImportFileType

pub data ProxyUrlImportDetectedFormat : Type 0 where
  plain_text clash_yaml v2ray_uri_list base64_uri_list : ProxyUrlImportDetectedFormat

pub data ProxyUrlImportConnectionMode : Type 0 where
  direct core_adapter : ProxyUrlImportConnectionMode

pub data JobStatus : Type 0 where
  running finished failed : JobStatus

pub data EventLevel : Type 0 where
  info warning error : EventLevel

pub data AuthMethod : Type 0 where
  session basic disabled : AuthMethod

pub data DashboardRoute : Type 0 where
  overview proxies providers geo validation logs settings doc : DashboardRoute

-- Equality of two literals is equality of the constructors, told apart by their position.
abbrev pool_index : ProxyPool → ℕ
pool_index raw = 0
pool_index checked = 1
pool_index elite = 2
pool_index dead = 3
pool_index cooldown = 4

pub pool_beq_iff : (a b : ProxyPool) → (nat_beq (pool_index a) (pool_index b) ≡ true) ↔ (a ≡ b)
pool_beq_iff a b = ground arith

instance abbrev pub pool_eq : Equality ProxyPool
pool_eq = record { agree = λ a b. nat_beq (pool_index a) (pool_index b); agree_iff = pool_beq_iff }

abbrev scheme_index : ProxyScheme → ℕ
scheme_index http = 0
scheme_index https = 1
scheme_index socks4 = 2
scheme_index socks5 = 3

pub scheme_beq_iff :
    (a b : ProxyScheme) → (nat_beq (scheme_index a) (scheme_index b) ≡ true) ↔ (a ≡ b)
scheme_beq_iff a b = ground arith

instance abbrev pub scheme_eq : Equality ProxyScheme
scheme_eq = record {
  agree = λ a b. nat_beq (scheme_index a) (scheme_index b);
  agree_iff = scheme_beq_iff;
}

abbrev anonymity_index : ProxyAnonymity → ℕ
anonymity_index unknown = 0
anonymity_index transparent = 1
anonymity_index anonymous = 2
anonymity_index elite = 3

pub anonymity_beq_iff :
    (a b : ProxyAnonymity) → (nat_beq (anonymity_index a) (anonymity_index b) ≡ true) ↔ (a ≡ b)
anonymity_beq_iff a b = ground arith

instance abbrev pub anonymity_eq : Equality ProxyAnonymity
anonymity_eq = record {
  agree = λ a b. nat_beq (anonymity_index a) (anonymity_index b);
  agree_iff = anonymity_beq_iff;
}

-- The string that each literal is.
abbrev pub pool_text : ProxyPool → Text
pool_text raw = codes "raw"
pool_text checked = codes "checked"
pool_text elite = codes "elite"
pool_text dead = codes "dead"
pool_text cooldown = codes "cooldown"

abbrev pub scheme_text : ProxyScheme → Text
scheme_text http = codes "http"
scheme_text https = codes "https"
scheme_text socks4 = codes "socks4"
scheme_text socks5 = codes "socks5"

abbrev pub anonymity_text : ProxyAnonymity → Text
anonymity_text unknown = codes "unknown"
anonymity_text transparent = codes "transparent"
anonymity_text anonymous = codes "anonymous"
anonymity_text elite = codes "elite"

abbrev pub file_type_text : ProxyUrlImportFileType → Text
file_type_text auto = codes "auto"
file_type_text http = codes "http"
file_type_text socks5 = codes "socks5"
file_type_text all = codes "all"
file_type_text clash = codes "clash"
file_type_text v2ray = codes "v2ray"

abbrev pub route_text : DashboardRoute → Text
route_text overview = codes "overview"
route_text proxies = codes "proxies"
route_text providers = codes "providers"
route_text geo = codes "geo"
route_text validation = codes "validation"
route_text logs = codes "logs"
route_text settings = codes "settings"
route_text doc = codes "doc"

abbrev pub job_status_text : JobStatus → Text
job_status_text running = codes "running"
job_status_text finished = codes "finished"
job_status_text failed = codes "failed"

abbrev pub event_level_text : EventLevel → Text
event_level_text info = codes "info"
event_level_text warning = codes "warning"
event_level_text error = codes "error"

abbrev pub db_status_text : DbStatus → Text
db_status_text ok = codes "ok"
db_status_text error = codes "error"
db_status_text unknown = codes "unknown"

abbrev pub scheduler_status_text : SchedulerStatus → Text
scheduler_status_text running = codes "running"
scheduler_status_text stopped = codes "stopped"
scheduler_status_text unknown = codes "unknown"
