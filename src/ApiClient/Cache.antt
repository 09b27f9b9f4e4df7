-- ===== src/ApiClient/Cache.antt =====
-- dashboard/src/lib/api-client.ts: what the proxy cache is good for.
use mathlib.Core.Path.{subst}
use proxy_pool_architect.Base.{
  ℕ, true, ◌≡◌, refl, sym, ap, ◌∙◌, Option, none, some, List, [], ◌∷◌, ◌++◌, ◌||◌, arith,
  Bool-cases, inl, inr, is_some, false, or_option, if◌then◌else◌,
}
use proxy_pool_architect.Base.Text.{Text, codes, has, text_beq, text_beq_iff}
use proxy_pool_architect.Effects.{Exception, api_error, Result, ok, err, Result-cases, ok-injective}
use proxy_pool_architect.ApiClient.Live.{LiveProxyListResponse, LiveProxyResponse}
use proxy_pool_architect.ApiClient.Requests.{
  Method, no_body, get_from, proxy_path, build_live_proxy_list_path,
}
use proxy_pool_architect.Types.Records.{
  DeleteProxyResult, ProxyEndpoint, ProxyListQuery, ProxyListResponse,
}
use proxy_pool_architect.MockStore.Import.{ids}
use proxy_pool_architect.ApiClient.Http.{fetch_outcome}
use proxy_pool_architect.ApiClient.Call.{
  ClientState, Server, cached, cached_all, uncached, is_not_found,
}
use proxy_pool_architect.ApiClient.Normalize.{normalize_live_proxy, live_items, live_page}
use proxy_pool_architect.ApiClient.Client.{
  Environment, live, list_proxies, get_proxy, delete_proxy, proxy_fallback,
}

pub cached-cached_all :
    (id : Text) (items : List ProxyEndpoint) (cache : List (Text × ProxyEndpoint))
    → is_some (cached id (cached_all items cache))
      ≡ (has id (ids items) || is_some (cached id cache))
cached-cached_all id [] cache = refl
cached-cached_all id (item ∷ items) cache =
    ground (arith, cached-cached_all id items ((item.id, item) ∷ cache))

pub cached-uncached :
    (id : Text) (cache : List (Text × ProxyEndpoint)) → cached id (uncached id cache) ≡ none
cached-uncached id [] = refl
cached-uncached id ((k, item) ∷ cache) = ground (arith, cached-uncached id cache)

-- The last proxy of a list that has an id.
abbrev pub find_last : Text → List ProxyEndpoint → Option ProxyEndpoint
find_last id [] = none
find_last id (item ∷ items) =
    or_option (find_last id items) (if text_beq item.id id then some item else none)

find_last-cached_all :
    (id : Text) (items : List ProxyEndpoint) (cache : List (Text × ProxyEndpoint))
    → cached id (cached_all items cache) ≡ or_option (find_last id items) (cached id cache)
find_last-cached_all id [] cache = refl
find_last-cached_all id (item ∷ items) cache =
    ground (arith, find_last-cached_all id items ((item.id, item) ∷ cache))

find_last-none :
    (id : Text) (items : List ProxyEndpoint)
    → has id (ids items) ≡ false
    → find_last id items ≡ none
find_last-none id [] h = refl
find_last-none id (item ∷ items) h = ground (arith, find_last-none id items)

find_last-has :
    (id : Text) (items : List ProxyEndpoint)
    → has id (ids items) ≡ true
    → (item : ProxyEndpoint) × (find_last id items ≡ some item) × (item.id ≡ id)
find_last-has id [] h = cc
find_last-has id (item ∷ items) h = elim (Bool-cases (has id (ids items))) [
  | inl later ↦
      let (found, last, same) = find_last-has id items later in (found, rw last refl, same)
  | inr earlier ↦ elim (Bool-cases (text_beq item.id id)) [
    | inl same ↦
        (item, ground (arith, find_last-none id items earlier), (text_beq_iff item.id id).0 same)
    | inr other ↦ absurd (ground (arith, h, earlier, other))
  ]
]

module _ (env : Environment) (server : Server) (timeout_ms : ℕ) where
  proxy_fallback_rejects :
      (id : Text) (e : Exception) (s : ClientState)
      → cached id s.cache ≡ none
      → (failure : Exception) × ((proxy_fallback env server timeout_ms id e s).0 ≡ err failure)
  proxy_fallback_rejects id e s absent = elim (Bool-cases (is_not_found e)) [
    | inl missing ↦
        (api_error (codes "Proxy " ++ (id ++ codes " was not found.")) (some 404), ground arith)
    | inr other ↦ (e, ground arith)
  ]

  -- What `getProxy` gives for a proxy that is in the cache.
  abbrev pub got_or : ProxyEndpoint → Result LiveProxyResponse → Result ProxyEndpoint
  got_or item (ok response) = ok (normalize_live_proxy response)
  got_or item (err e) = ok item

  get_proxy-got_or :
      (id : Text) (s : ClientState) {item : ProxyEndpoint}
      → cached id s.cache ≡ some item
      → (get_proxy env server timeout_ms live id s).0
        ≡ got_or item (fetch_outcome timeout_ms (server.proxy s.sent (get_from (proxy_path id))))
  unfolding get_proxy
  get_proxy-got_or id s {item} known =
      elim (Result-cases
        (fetch_outcome timeout_ms (server.proxy s.sent (get_from (proxy_path id))))) [
          | inl (response, answer) ↦ rw answer refl
          | inr (e, failure) ↦ rw failure (ground arith)
        ]

  -- After a page has been listed, `getProxy` gives the page's last proxy with the id, unless the server
  -- gives one.
  abbrev pub GetsListed : Text → ProxyListResponse → ClientState → Type 0
  GetsListed id page s =
      (item : ProxyEndpoint) × (find_last id page.items ≡ some item)
      × (item.id ≡ id)
      × ((get_proxy env server timeout_ms live id s).0
          ≡ got_or item (fetch_outcome timeout_ms (server.proxy s.sent (get_from (proxy_path id)))))

  cached_all-GetsListed :
      (id : Text) (response : LiveProxyListResponse) (page : ProxyListResponse) (s : ClientState)
      → ok (live_page response) ≡ ok page
      → has id (ids page.items) ≡ true
      → GetsListed id page (record s { cache = cached_all (live_items response) s.cache })
  unfolding live_page
  cached_all-GetsListed id response page s shown known =
      let same = ok-injective (live_page response) page shown in
      let (item, last, named) = find_last-has id page.items known in
      let listed =
        subst (λ (p : ProxyListResponse). find_last id p.items ≡ some item) (sym same) last in
      let found =
        find_last-cached_all id (live_items response) s.cache
        ∙ ap (λ o. or_option o (cached id s.cache)) listed in
      (item, last, named, get_proxy-got_or id _ found)

  -- In the live mode, each proxy of a page that the client has just listed can be got: if the server
  -- gives it, as the server does, and if the request fails, as it was listed, where the last one counts
  -- if the page has several with the same id.
  pub get_proxy-list_proxies :
      (query : ProxyListQuery) (id : Text) (s : ClientState) {page : ProxyListResponse}
      → (list_proxies env server timeout_ms live query s).0 ≡ ok page
      → has id (ids page.items) ≡ true
      → GetsListed id page (list_proxies env server timeout_ms live query s).1
  unfolding list_proxies
  get_proxy-list_proxies query id s {page} listed known =
      elim (Result-cases (
        fetch_outcome timeout_ms
          (server.proxies s.sent (get_from (build_live_proxy_list_path query))))) [
            | inl (response, answer) ↦
                let shown : ok (live_page response) ≡ ok page = rw answer at listed in
                let sent = get_from (build_live_proxy_list_path query) ∷ s.sent in
                rw answer
                  (cached_all-GetsListed id response page (record s { sent = sent }) shown known)
            | inr (e, failure) ↦
                let rejected : ◌≡◌ {A = Result ProxyListResponse} (err e) (ok page) =
                  rw failure at listed in
                cc
          ]

  -- In the live mode, if a deletion resolves and the server then fails to give the proxy, getting the
  -- proxy rejects: a proxy that is deleted does not come from the cache.
  pub get_proxy-delete_proxy :
      (id : Text) (s : ClientState) {result : DeleteProxyResult} {e : Exception}
      → (delete_proxy env server timeout_ms live id s).0 ≡ ok result
      → fetch_outcome timeout_ms (
          server.proxy
            (delete_proxy env server timeout_ms live id s).1.sent
            (get_from (proxy_path id)))
        ≡ err e
      → (failure : Exception) × ((get_proxy env server timeout_ms live id
            (delete_proxy env server timeout_ms live id s).1).0
          ≡ err failure)
  unfolding delete_proxy get_proxy
  get_proxy-delete_proxy id s {result} {e} deleted fails =
      elim (Result-cases (
        fetch_outcome timeout_ms (
          server.deletion s.sent
            (record { method = Method.delete; target = proxy_path id; body = no_body })))) [
              | inl (response, answer) ↦
                  let failing = rw answer at fails in
                  rw (answer, failing) (proxy_fallback_rejects id e _ (cached-uncached id s.cache))
              | inr (f, failure) ↦
                  let rejected : ◌≡◌ {A = Result DeleteProxyResult} (err f) (ok result) =
                    rw failure at deleted in
                  cc
            ]
