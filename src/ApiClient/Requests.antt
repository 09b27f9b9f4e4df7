-- ===== src/ApiClient/Requests.antt =====
-- dashboard/src/lib/api-client.ts: the requests that the client sends. `URLSearchParams` is the list of
-- its pairs, which is written out percent-encoded behind the path, as is the id behind "/proxy/".
use proxy_pool_architect.Base.{ℕ, Option, none, some, List, [], ◌∷◌, or_else, if◌then◌else◌}
use proxy_pool_architect.Base.Text.{Text, codes, text_beq, non_empty}
use proxy_pool_architect.Format.{decimal}
use proxy_pool_architect.Types.Unions.{
  ProxyUrlImportFileType, pool_text, scheme_text, anonymity_text,
}
use proxy_pool_architect.Types.Records.{ProxyListQuery, DashboardSettings}

pub data Method : Type 0 where
  get post patch delete : Method

pub data Target : Type 0 where
  path : Text → Target
  path_with : Text → List (Text × Text) → Target
  proxy_path : Text → Target

pub data Body : Type 0 where
  no_body : Body
  credentials : (username password : Text) → Body
  import_url : (url : Text) → ProxyUrlImportFileType → Body
  settings : DashboardSettings → Body

pub record Request : Type 0 where
  pub method : Method
  pub target : Target
  pub body : Body

abbrev pub get_from : Target → Request
get_from target = record { method = get; target = target; body = no_body }

abbrev pub live_proxy_snapshot_limit : ℕ
live_proxy_snapshot_limit = 500

-- `params.set(key, value)`
abbrev pub set_param : Text → Text → List (Text × Text) → List (Text × Text)
set_param key value [] = (key, value) ∷ []
set_param key value ((k, v) ∷ params) =
    if text_beq k key then (k, value) ∷ params else (k, v) ∷ set_param key value params

-- `if (value) { params.set(key, value); }`
abbrev pub set_some : Text → Option Text → List (Text × Text) → List (Text × Text)
set_some key none params = params
set_some key (some value) params = set_param key value params

abbrev pub text_of {ℓ} : {A : Type ℓ} → (A → Text) → Option A → Option Text
text_of write none = none
text_of write (some a) = some (write a)

unfoldable pub build_pagination_path : Text → ℕ → ℕ → Target
build_pagination_path to limit offset =
    path_with to
      (set_param (codes "offset") (decimal offset) (set_param (codes "limit") (decimal limit) []))

unfoldable pub live_proxy_list_params : ProxyListQuery → List (Text × Text)
live_proxy_list_params query =
    let limited =
      set_param (codes "limit") (decimal (or_else query.limit live_proxy_snapshot_limit)) [] in
    let paged = set_param (codes "offset") (decimal (or_else query.offset 0)) limited in
    let pooled = set_some (codes "pool") (text_of pool_text query.pool) paged in
    let schemed = set_some (codes "scheme") (text_of scheme_text query.scheme) pooled in
    let hidden = set_some (codes "anonymity") (text_of anonymity_text query.anonymity) schemed in
    let placed = set_some (codes "country") (non_empty query.country) hidden in
    let sourced = set_some (codes "source") (non_empty query.source) placed in
    let searched = set_some (codes "q") (non_empty query.q) sourced in
    set_some (codes "min_score") (text_of decimal query.min_score) searched

unfoldable pub build_live_proxy_list_path : ProxyListQuery → Target
unfolding live_proxy_list_params
build_live_proxy_list_path query = path_with (codes "/proxy/list") (live_proxy_list_params query)
