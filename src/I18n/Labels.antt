-- ===== src/I18n/Labels.antt =====
-- dashboard/src: the keys that components put together from a value.
use proxy_pool_architect.Base.{◌≡◌, refl, true, ◌++◌, is_some}
use proxy_pool_architect.Base.Text.{Text, codes}
use proxy_pool_architect.Types.Unions.{
  ProxyPool, ProxyAnonymity, JobStatus, EventLevel, DbStatus, SchedulerStatus, DashboardRoute,
  ProxyUrlImportFileType, pool_text, anonymity_text, job_status_text, event_level_text,
  db_status_text, scheduler_status_text,
}
use proxy_pool_architect.Navigation.{route_title_keys}
use proxy_pool_architect.I18n.Entries.{lookup}
use proxy_pool_architect.I18n.{Language, en, zh_cn, resources, language_labels}

unfoldable pub pool_label_key : ProxyPool → Text
pool_label_key pool = codes "proxyPool." ++ pool_text pool

unfoldable pub anonymity_label_key : ProxyAnonymity → Text
anonymity_label_key anonymity = codes "anonymity." ++ anonymity_text anonymity

pub event_level_key : EventLevel → Text
event_level_key level = codes "eventLevel." ++ event_level_text level

pub validation_status_key : JobStatus → Text
validation_status_key status = codes "validationStatus." ++ job_status_text status

pub db_status_key : DbStatus → Text
db_status_key status = codes "status." ++ db_status_text status

pub scheduler_status_key : SchedulerStatus → Text
scheduler_status_key status = codes "status." ++ scheduler_status_text status

pub file_type_labels : ProxyUrlImportFileType → Text
file_type_labels ProxyUrlImportFileType.auto = codes "providers.fileType.auto"
file_type_labels ProxyUrlImportFileType.http = codes "providers.fileType.http"
file_type_labels ProxyUrlImportFileType.socks5 = codes "providers.fileType.socks5"
file_type_labels ProxyUrlImportFileType.all = codes "providers.fileType.all"
file_type_labels ProxyUrlImportFileType.clash = codes "providers.fileType.clash"
file_type_labels ProxyUrlImportFileType.v2ray = codes "providers.fileType.v2ray"

-- A text of the language stands behind the key.
abbrev pub HasText : Language → Text → Type 0
HasText language key = is_some (lookup key (resources language)) ≡ true

pool-HasText : (language : Language) (a : ProxyPool) → HasText language (pool_label_key a)
unfolding pool_label_key resources
pool-HasText en ProxyPool.raw = refl
pool-HasText en _ = refl
pool-HasText zh_cn ProxyPool.raw = refl
pool-HasText zh_cn _ = refl

anonymity-HasText :
    (language : Language) (a : ProxyAnonymity) → HasText language (anonymity_label_key a)
unfolding anonymity_label_key resources
anonymity-HasText en ProxyAnonymity.unknown = refl
anonymity-HasText en _ = refl
anonymity-HasText zh_cn ProxyAnonymity.unknown = refl
anonymity-HasText zh_cn _ = refl

event_level-HasText : (language : Language) (a : EventLevel) → HasText language (event_level_key a)
unfolding event_level_key resources
event_level-HasText en EventLevel.info = refl
event_level-HasText en _ = refl
event_level-HasText zh_cn EventLevel.info = refl
event_level-HasText zh_cn _ = refl

validation_status-HasText :
    (language : Language) (a : JobStatus) → HasText language (validation_status_key a)
unfolding validation_status_key resources
validation_status-HasText en JobStatus.running = refl
validation_status-HasText en _ = refl
validation_status-HasText zh_cn JobStatus.running = refl
validation_status-HasText zh_cn _ = refl

db_status-HasText : (language : Language) (a : DbStatus) → HasText language (db_status_key a)
unfolding db_status_key resources
db_status-HasText en DbStatus.ok = refl
db_status-HasText en _ = refl
db_status-HasText zh_cn DbStatus.ok = refl
db_status-HasText zh_cn _ = refl

scheduler_status-HasText :
    (language : Language) (a : SchedulerStatus) → HasText language (scheduler_status_key a)
unfolding scheduler_status_key resources
scheduler_status-HasText en SchedulerStatus.running = refl
scheduler_status-HasText en _ = refl
scheduler_status-HasText zh_cn SchedulerStatus.running = refl
scheduler_status-HasText zh_cn _ = refl

file_type-HasText :
    (language : Language) (a : ProxyUrlImportFileType) → HasText language (file_type_labels a)
unfolding file_type_labels resources
file_type-HasText en ProxyUrlImportFileType.auto = refl
file_type-HasText en _ = refl
file_type-HasText zh_cn ProxyUrlImportFileType.auto = refl
file_type-HasText zh_cn _ = refl

route-HasText : (language : Language) (a : DashboardRoute) → HasText language (route_title_keys a)
unfolding route_title_keys resources
route-HasText en DashboardRoute.overview = refl
route-HasText en _ = refl
route-HasText zh_cn DashboardRoute.overview = refl
route-HasText zh_cn _ = refl

language-HasText : (language : Language) (a : Language) → HasText language (language_labels a)
unfolding language_labels resources
language-HasText en en = refl
language-HasText en _ = refl
language-HasText zh_cn en = refl
language-HasText zh_cn _ = refl

-- In both languages there is a text for every key that a component puts together from a value: the
-- badges of pool, anonymity, event level and job status, the states of database and scheduler, the
-- import's file types, the titles of the routes and the names of the languages.
pub labels-HasText :
    (language : Language) (pool : ProxyPool) (anonymity : ProxyAnonymity) (level : EventLevel)
    (job : JobStatus) (db : DbStatus) (scheduler : SchedulerStatus)
    (file_type : ProxyUrlImportFileType) (route : DashboardRoute) (label : Language)
    → HasText language (pool_label_key pool)
      × HasText language (anonymity_label_key anonymity)
      × HasText language (event_level_key level)
      × HasText language (validation_status_key job)
      × HasText language (db_status_key db)
      × HasText language (scheduler_status_key scheduler)
      × HasText language (file_type_labels file_type)
      × HasText language (route_title_keys route)
      × HasText language (language_labels label)
labels-HasText language pool anonymity level job db scheduler file_type route label = (
  pool-HasText language pool,
  anonymity-HasText language anonymity,
  event_level-HasText language level,
  validation_status-HasText language job,
  db_status-HasText language db,
  scheduler_status-HasText language scheduler,
  file_type-HasText language file_type,
  route-HasText language route,
  language-HasText language label,
)
