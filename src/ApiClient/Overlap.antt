-- ===== src/ApiClient/Overlap.antt =====
-- dashboard/src/lib/api-client.ts: the proxy cache under calls that overlap in time. What a call does with
-- an answer is not interrupted, so the cache sees the answers one after the other, in any order.
use proxy_pool_architect.Base.{
  Bool, true, false, ◌||◌, ◌≡◌, refl, ap, ◌∙◌, List, [], ◌∷◌, ◌++◌, any, arith, is_some, ℕ,
  Bool-cases, Option-cases, inl, inr,
}
use proxy_pool_architect.Base.Text.{Text, text_beq, text_beq_iff, has}
use proxy_pool_architect.Types.Records.{ProxyEndpoint}
use proxy_pool_architect.MockStore.Import.{ids}
use proxy_pool_architect.Effects.{Exception, Result, ok, err}
use proxy_pool_architect.ApiClient.Http.{fetch_outcome}
use proxy_pool_architect.ApiClient.Requests.{get_from, proxy_path}
use proxy_pool_architect.ApiClient.Client.{Environment, live, get_proxy, proxy_fallback}
use proxy_pool_architect.ApiClient.Call.{
  ClientState, Server, cached, cached_all, uncached, is_not_found,
}
use proxy_pool_architect.ApiClient.Cache.{cached-cached_all, cached-uncached}

abbrev pub Cache : Type 0
Cache = List (Text × ProxyEndpoint)

-- A good answer to a list request, to a request for a proxy, and to a deletion, by what the call takes
-- from it. `listed` is that of `loadLiveProxyUniverse` too.
pub data Arrival : Type 0 where
  listed : List ProxyEndpoint → Arrival
  got : ProxyEndpoint → Arrival
  removed : Text → Arrival

unfoldable pub arrive : Arrival → Cache → Cache
arrive (listed items) cache = cached_all items cache
arrive (got item) cache = (item.id, item) ∷ cache
arrive (removed id) cache = uncached id cache

abbrev pub arrive_all : List Arrival → Cache → Cache
arrive_all [] cache = cache
arrive_all (arrival ∷ arrivals) cache = arrive_all arrivals (arrive arrival cache)

abbrev pub names : Text → Arrival → Bool
names id (listed items) = has id (ids items)
names id (got item) = text_beq item.id id
names id (removed other) = false

abbrev pub removes : Text → Arrival → Bool
removes id (removed other) = text_beq other id
removes id (listed items) = false
removes id (got item) = false

arrive_all-append :
    (before after : List Arrival) (cache : Cache)
    → arrive_all (before ++ after) cache ≡ arrive_all after (arrive_all before cache)
arrive_all-append [] after cache = refl
arrive_all-append (arrival ∷ before) after cache =
    arrive_all-append before after (arrive arrival cache)

cached-uncached_other :
    (id other : Text) (cache : Cache)
    → text_beq other id ≡ false
    → cached id (uncached other cache) ≡ cached id cache
cached-uncached_other id other [] differs = refl
cached-uncached_other id other ((k, item) ∷ cache) differs = ground (
  arith,
  cached-uncached_other id other cache differs,
  text_beq_iff k id,
  text_beq_iff k other,
  text_beq_iff other id,
)

cached-arrive :
    (id : Text) (arrival : Arrival) (cache : Cache)
    → removes id arrival ≡ false
    → is_some (cached id (arrive arrival cache)) ≡ (names id arrival || is_some (cached id cache))
unfolding arrive
cached-arrive id (listed items) cache stays = cached-cached_all id items cache
cached-arrive id (got item) cache stays = ground arith
cached-arrive id (removed other) cache stays =
    ap is_some (cached-uncached_other id other cache stays)

any-arrivals :
    (id : Text) (arrivals : List Arrival) (cache : Cache)
    → any (removes id) arrivals ≡ false
    → is_some (cached id (arrive_all arrivals cache))
      ≡ (any (names id) arrivals || is_some (cached id cache))
any-arrivals id [] cache stay = refl
any-arrivals id (arrival ∷ arrivals) cache stay = elim (Bool-cases (removes id arrival)) [
  | inl removing ↦ ground arith
  | inr stays ↦
      ground (
        arith,
        any-arrivals id arrivals (arrive arrival cache),
        cached-arrive id arrival cache stays,
      )
]

abbrev pub is_ok : {A : Type 0} → Result A → Bool
is_ok (ok a) = true
is_ok (err e) = false

fallback_ok :
    (env : Environment) (server : Server) (timeout_ms : ℕ) (id : Text) (e : Exception)
    (s : ClientState)
    → is_ok (proxy_fallback env server timeout_ms id e s).0 ≡ is_some (cached id s.cache)
fallback_ok env server timeout_ms id e s = elim (Option-cases (cached id s.cache)) [
  | inl absent ↦ elim (Bool-cases (is_not_found e)) [
    | inl missing ↦ ground arith
    | inr other ↦ ground arith
  ]
  | inr (item, found) ↦ ground arith
]

-- In the live mode, when a deletion has been answered and other answers have come after it, none of them
-- to a deletion of the same proxy, a request for that proxy that the server fails still gives a proxy
-- exactly if one of the later answers names it, also if that is the answer to a list request which was
-- sent before the deletion.
pub get_proxy-arrive_all :
    (env : Environment) (server : Server) (timeout_ms : ℕ) (id : Text) (before after : List Arrival)
    (s : ClientState) {e : Exception}
    → any (removes id) after ≡ false
    → fetch_outcome timeout_ms (server.proxy s.sent (get_from (proxy_path id))) ≡ err e
    → let cache = arrive_all (before ++ removed id ∷ after) s.cache in
      is_ok (get_proxy env server timeout_ms live id (record s { cache = cache })).0
      ≡ any (names id) after
unfolding get_proxy arrive
get_proxy-arrive_all env server timeout_ms id before after s {e} stay fails = rw fails (
    fallback_ok env server timeout_ms id e _
    ∙ ap (λ c. is_some (cached id c)) (arrive_all-append before (removed id ∷ after) s.cache)
    ∙ present)
  where
    present :
        is_some (cached id (arrive_all after (uncached id (arrive_all before s.cache))))
        ≡ any (names id) after
    present = ground (
      arith,
      any-arrivals id after (uncached id (arrive_all before s.cache)) stay,
      cached-uncached id (arrive_all before s.cache),
    )
