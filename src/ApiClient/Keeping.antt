-- ===== src/ApiClient/Keeping.antt =====
-- dashboard/src/lib/api-client.ts: the properties of the client's state that a call keeps if its parts
-- do, which are requests, changes of the cache and changes of the mock's settings.
use proxy_pool_architect.Base.{ℕ, Bool, true, false, List, [], ◌∷◌, if◌then◌else◌}
use proxy_pool_architect.Base.Text.{Text, codes}
use proxy_pool_architect.Effects.{Exception, Result, ok, err}
use proxy_pool_architect.Types.Records.{ProxyEndpoint, ProxyListQuery, DashboardSettings}
use proxy_pool_architect.ApiClient.Http.{fetch_outcome}
use proxy_pool_architect.Types.Unions.{ProxyUrlImportFileType}
use proxy_pool_architect.ApiClient.Requests.{
  Method, Request, Body, path, proxy_path, get_from, no_body, credentials, import_url,
  build_live_proxy_list_path, build_pagination_path,
}
use proxy_pool_architect.ApiClient.Call.{
  ClientState, Server, Call, Answers, ◌>>=◌, and_then, handle, reject, try_catch, fetch_json,
  cached_all, uncached, is_not_found,
}
use proxy_pool_architect.ApiClient.Client.{Environment, on_not_found}

-- The requests that the methods of the client send.
pub data ClientRequest : Request → Type 0 where
  to_session : ClientRequest (get_from (path (codes "/auth/session")))
  to_login :
      (username password : Text)
      → ClientRequest (record {
        method = Method.post;
        target = path (codes "/auth/login");
        body = credentials username password;
      })
  to_logout :
      ClientRequest
        (record { method = Method.post; target = path (codes "/auth/logout"); body = no_body })
  to_health : ClientRequest (get_from (path (codes "/health")))
  to_stats : ClientRequest (get_from (path (codes "/stats")))
  to_proxies :
      (query : ProxyListQuery) → ClientRequest (get_from (build_live_proxy_list_path query))
  to_proxy : (id : Text) → ClientRequest (get_from (proxy_path id))
  to_deletion :
      (id : Text)
      → ClientRequest (record { method = Method.delete; target = proxy_path id; body = no_body })
  to_import :
      (url : Text) (file_type : ProxyUrlImportFileType)
      → ClientRequest (record {
        method = Method.post;
        target = path (codes "/providers/import-url");
        body = import_url url file_type;
      })
  to_geo : ClientRequest (get_from (path (codes "/geo/summary")))
  to_providers : ClientRequest (get_from (path (codes "/providers")))
  to_jobs :
      (limit offset : ℕ)
      → ClientRequest (get_from (build_pagination_path (codes "/validation/jobs") limit offset))
  to_events :
      (limit offset : ℕ)
      → ClientRequest (get_from (build_pagination_path (codes "/events") limit offset))
  to_settings : ClientRequest (get_from (path (codes "/settings")))
  to_new_settings :
      (next : DashboardSettings)
      → ClientRequest (record {
        method = Method.patch;
        target = path (codes "/settings");
        body = Body.settings next;
      })

pub record IsStable (P : ClientState → Type 0) : Type 0 where
  pub sending :
      (s : ClientState) {r : Request} → ClientRequest r → P s → P (record s { sent = r ∷ s.sent })
  pub caching :
      (s : ClientState) (item : ProxyEndpoint)
      → P s
      → P (record s { cache = (item.id, item) ∷ s.cache })
  pub uncaching : (s : ClientState) (id : Text) → P s → P (record s { cache = uncached id s.cache })
  pub setting :
      (s : ClientState) (next : DashboardSettings)
      → P s
      → P (record s { mock = record s.mock { settings = next } })

abbrev pub Keeps : {A : Type 0} → (ClientState → Type 0) → Call A → Type 0
Keeps P m = (s : ClientState) → P s → P (m s).1

module _ (P : ClientState → Type 0) where
  pub and_then-Keeps :
      {A B : Type 0} (r : Result A) (k : A → Call B)
      → ((a : A) → Keeps P (k a))
      → Keeps P (and_then r k)
  and_then-Keeps (ok a) k h = h a
  and_then-Keeps (err e) k h = λ s p. p

  pub bind-Keeps :
      {A B : Type 0} (m : Call A) (k : A → Call B)
      → Keeps P m
      → ((a : A) → Keeps P (k a))
      → Keeps P (m >>= k)
  bind-Keeps m k hm hk s p = and_then-Keeps (m s).0 k hk (m s).1 (hm s p)

  pub handle-Keeps :
      {A : Type 0} (r : Result A) (k : Exception → Call A)
      → ((e : Exception) → Keeps P (k e))
      → Keeps P (handle r k)
  handle-Keeps (ok a) k h = λ s p. p
  handle-Keeps (err e) k h = h e

  pub try_catch-Keeps :
      {A : Type 0} (m : Call A) (k : Exception → Call A)
      → Keeps P m
      → ((e : Exception) → Keeps P (k e))
      → Keeps P (try_catch m k)
  try_catch-Keeps m k hm hk s p = handle-Keeps (m s).0 k hk (m s).1 (hm s p)

  pub if-Keeps :
      {A : Type 0} (b : Bool) (m n : Call A) → Keeps P m → Keeps P n → Keeps P (if b then m else n)
  if-Keeps true m n hm hn = hm
  if-Keeps false m n hm hn = hn

  module _ (stable : IsStable P) where
    pub cached_all-stable :
        (items : List ProxyEndpoint) (s : ClientState)
        → P s
        → P (record s { cache = cached_all items s.cache })
    cached_all-stable [] s p = p
    cached_all-stable (item ∷ items) s p =
        cached_all-stable items (record s { cache = (item.id, item) ∷ s.cache })
          (stable.caching s item p)

    -- A request with what follows its result.
    pub fetch-Keeps :
        {A B : Type 0} (t : ℕ) (answers : Answers A) {r : Request}
        → ClientRequest r
        → (k : A → Call B) → ((a : A) → Keeps P (k a))
        → Keeps P (fetch_json t answers r >>= k)
    fetch-Keeps t answers {r} request k h s p =
        and_then-Keeps (fetch_outcome t (answers s.sent r)) k h (record s { sent = r ∷ s.sent })
          (stable.sending s request p)

    -- The same with a fallback for "not found".
    pub fetch_or-Keeps :
        {A B : Type 0} (env : Environment) (server : Server) (t : ℕ) (answers : Answers A)
        {r : Request}
        → ClientRequest r
        → (k : A → Call B) (fallback : Call B) → ((a : A) → Keeps P (k a))
        → Keeps P fallback
        → Keeps P (try_catch (fetch_json t answers r >>= k) (on_not_found env server t fallback))
    fetch_or-Keeps env server t answers {r} request k fallback hk hf =
        try_catch-Keeps (fetch_json t answers r >>= k) (on_not_found env server t fallback)
          (fetch-Keeps t answers request k hk)
          (λ e. if-Keeps (is_not_found e) fallback (reject e) hf (λ s p. p))
