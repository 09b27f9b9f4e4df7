-- ===== src/ApiClient/Call.antt =====
-- dashboard/src/lib/api-client.ts: what a method of the client can do. A call reads and writes the
-- proxy cache, the mock store and the record of the requests that were sent, and it resolves with a
-- value or rejects with an exception. The server is a parameter: its answer to a request may depend on
-- all requests before.
use proxy_pool_architect.Base.{
  ℕ, Bool, false, Option, none, some, List, [], ◌∷◌, if◌then◌else◌, nat_beq,
}
use proxy_pool_architect.Base.Text.{Text, text_beq}
use proxy_pool_architect.Effects.{
  Exception, api_error, abort_error, js_error, thrown, Result, ok, err,
}
use proxy_pool_architect.Types.Records.{
  ProxyEndpoint, AuthSessionStatus, ProxyUrlImportResult, PaginatedResponse, ValidationJob,
  EventLogEntry, DashboardSettings,
}
use proxy_pool_architect.MockStore.{MockState}
use proxy_pool_architect.ApiClient.Http.{Race, fetch_outcome}
use proxy_pool_architect.ApiClient.Live.{
  LiveHealthResponse, LiveStatsResponse, LiveProxyResponse, LiveProxyListResponse,
  LiveDeleteProxyResponse, LiveGeoSummaryResponse, LiveProvidersResponse,
}
use proxy_pool_architect.ApiClient.Requests.{Request}

-- `proxyCache` has its entries with the newest first.
pub record ClientState : Type 0 where
  pub cache : List (Text × ProxyEndpoint)
  pub mock : MockState
  pub sent : List Request

abbrev pub Answers : Type 0 → Type 0
Answers T = List Request → Request → Race T

pub record Server : Type 0 where
  pub auth : Answers AuthSessionStatus
  pub health : Answers LiveHealthResponse
  pub stats : Answers LiveStatsResponse
  pub proxies : Answers LiveProxyListResponse
  pub proxy : Answers LiveProxyResponse
  pub deletion : Answers LiveDeleteProxyResponse
  pub url_import : Answers ProxyUrlImportResult
  pub geo : Answers LiveGeoSummaryResponse
  pub providers : Answers LiveProvidersResponse
  pub jobs : Answers (PaginatedResponse ValidationJob)
  pub events : Answers (PaginatedResponse EventLogEntry)
  pub settings : Answers DashboardSettings
  -- which of two failing requests of `Promise.all` rejects first
  pub health_rejects_first : List Request → Bool

abbrev pub Call : Type 0 → Type 0
Call A = ClientState → Result A × ClientState

abbrev pub and_then : {A B : Type 0} → Result A → (A → Call B) → Call B
and_then (ok a) k s = k a s
and_then (err e) k s = (err e, s)

infixl 5 ◌>>=◌ ◌>>◌
abbrev pub ◌>>=◌ : {A B : Type 0} → Call A → (A → Call B) → Call B
◌>>=◌ m k s = and_then (m s).0 k (m s).1

abbrev pub ◌>>◌ : {A B : Type 0} → Call A → Call B → Call B
m >> k = m >>= λ _. k

abbrev pub pure : {A : Type 0} → A → Call A
pure a s = (ok a, s)

abbrev pub reject : {A : Type 0} → Exception → Call A
reject e s = (err e, s)

abbrev pub handle : {A : Type 0} → Result A → (Exception → Call A) → Call A
handle (ok a) handler s = (ok a, s)
handle (err e) handler s = handler e s

-- `try { m } catch (e) { handler(e) }`
abbrev pub try_catch : {A : Type 0} → Call A → (Exception → Call A) → Call A
try_catch m handler s = handle (m s).0 handler (m s).1

-- A function of the mock module that writes its variables, and one that only reads them.
abbrev pub on_mock : {A : Type 0} → (MockState → A × MockState) → Call A
on_mock f s = (ok (f s.mock).0, record s { mock = (f s.mock).1 })

abbrev pub on_mock_result : {A : Type 0} → (MockState → Result A × MockState) → Call A
on_mock_result f s = ((f s.mock).0, record s { mock = (f s.mock).1 })

abbrev pub from_mock : {A : Type 0} → (MockState → A) → Call A
from_mock f s = (ok (f s.mock), s)

abbrev pub from_mock_result : {A : Type 0} → (MockState → Result A) → Call A
from_mock_result f s = (f s.mock, s)

-- `fetchJson<T>(path, init)`
abbrev pub fetch_json : {T : Type 0} → ℕ → Answers T → Request → Call T
fetch_json timeout_ms answers request s =
    (fetch_outcome timeout_ms (answers s.sent request), record s { sent = request ∷ s.sent })

-- `proxyCache.set(item.id, item)` for one and for all, `proxyCache.delete(id)` and `proxyCache.get(id)`
abbrev pub cache_proxy : ProxyEndpoint → Call (Unit {0})
cache_proxy item s = (ok tt, record s { cache = (item.id, item) ∷ s.cache })

abbrev pub cached_all :
    List ProxyEndpoint → List (Text × ProxyEndpoint) → List (Text × ProxyEndpoint)
cached_all [] cache = cache
cached_all (item ∷ items) cache = cached_all items ((item.id, item) ∷ cache)

abbrev pub cache_proxies : List ProxyEndpoint → Call (Unit {0})
cache_proxies items s = (ok tt, record s { cache = cached_all items s.cache })

abbrev pub uncached : Text → List (Text × ProxyEndpoint) → List (Text × ProxyEndpoint)
uncached id [] = []
uncached id ((k, item) ∷ cache) =
    if text_beq k id then uncached id cache else (k, item) ∷ uncached id cache

abbrev pub uncache_proxy : Text → Call (Unit {0})
uncache_proxy id s = (ok tt, record s { cache = uncached id s.cache })

abbrev pub cached : Text → List (Text × ProxyEndpoint) → Option ProxyEndpoint
cached id [] = none
cached id ((k, item) ∷ cache) = if text_beq k id then some item else cached id cache

-- `error instanceof DashboardApiError && error.status === 404`
abbrev pub is_status : ℕ → Option ℕ → Bool
is_status code none = false
is_status code (some status) = nat_beq status code

abbrev pub is_not_found : Exception → Bool
is_not_found (api_error message status) = is_status 404 status
is_not_found (abort_error message) = false
is_not_found (js_error message) = false
is_not_found thrown = false
