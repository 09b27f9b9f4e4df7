-- ===== src/MockStore/Reachable.antt =====
-- dashboard/src/lib/mock-data.ts: the states that the mock store reaches.
use proxy_pool_architect.Base.{
  ℕ, ◌≡◌, refl, Bool, false, not, List, [], ◌∷◌, ◌++◌, filter, arith, ◌∙◌, Bool-cases, inl, inr,
}
use proxy_pool_architect.Base.Text.{Text, has}
use proxy_pool_architect.Types.Unions.{ProxyUrlImportFileType, v2ray}
use proxy_pool_architect.Types.Records.{ProxyEndpoint, DashboardSettings}
use proxy_pool_architect.MockStore.Seed.{build_mock_proxy_store}
use proxy_pool_architect.MockStore.{
  MockState, initial_mock_state, has_id, delete_mock_proxy, update_mock_settings,
  reset_mock_proxy_store,
}
use proxy_pool_architect.MockStore.Import.{
  imported_proxies, ids, unique_imported, import_source, submit_from_host,
}
use proxy_pool_architect.MockStore.Imports.{has-map-append}

-- No two proxies share an id.
abbrev pub HasUniqueIds : List ProxyEndpoint → Type 0
HasUniqueIds [] = Unit
HasUniqueIds (x ∷ xs) = (has x.id (ids xs) ≡ false) × HasUniqueIds xs

-- A call of one of the functions that write the module's variables.
pub data Step (hours_ago : ℕ → Text) (s s' : MockState) : Type 0 where
  deleted : (id : Text) → s' ≡ (delete_mock_proxy id s).1 → Step hours_ago s s'
  imported :
      (host : Text) (file_type : ProxyUrlImportFileType)
      → s' ≡ (submit_from_host host file_type s).1
      → Step hours_ago s s'
  updated : (next : DashboardSettings) → s' ≡ (update_mock_settings next s).1 → Step hours_ago s s'
  reset : s' ≡ reset_mock_proxy_store hours_ago s → Step hours_ago s s'

pub data Reach (hours_ago : ℕ → Text) : MockState → Type 0 where
  start : Reach hours_ago (initial_mock_state hours_ago)
  next : {s s' : MockState} → Reach hours_ago s → Step hours_ago s s' → Reach hours_ago s'

seed-HasUniqueIds : (hours_ago : ℕ → Text) → HasUniqueIds (build_mock_proxy_store hours_ago)
unfolding build_mock_proxy_store
seed-HasUniqueIds hours_ago = (
  refl,
  (
    refl,
    (
      refl,
      (
        refl,
        (
          refl,
          (
            refl,
            (
              refl,
              (
                refl,
                (refl, (refl, (refl, (refl, (refl, (refl, (refl, (refl, (refl, (refl, tt)))))))))),
              ),
            ),
          ),
        ),
      ),
    ),
  ),
)

has-filter :
    (x : Text) (p : ProxyEndpoint → Bool) (xs : List ProxyEndpoint)
    → has x (ids xs) ≡ false
    → has x (ids (filter p xs)) ≡ false
has-filter x p [] h = refl
has-filter x p (y ∷ xs) h = ground (arith, has-filter x p xs)

filter-HasUniqueIds :
    (p : ProxyEndpoint → Bool) (xs : List ProxyEndpoint)
    → HasUniqueIds xs
    → HasUniqueIds (filter p xs)
filter-HasUniqueIds p [] u = tt
filter-HasUniqueIds p (x ∷ xs) u =
    ground (arith, has-filter x.id p xs, filter-HasUniqueIds p xs u.1)

import-HasUniqueIds :
    (new stored : List ProxyEndpoint)
    → HasUniqueIds new
    → HasUniqueIds stored
    → HasUniqueIds (unique_imported new stored ++ stored)
import-HasUniqueIds [] stored u v = v
import-HasUniqueIds (x ∷ new) stored u v = elim (Bool-cases (has x.id (ids stored))) [
  | inl old ↦ rw old (import-HasUniqueIds new stored u.1 v)
  | inr fresh ↦ rw fresh (
    has-map-append x.id (unique_imported new stored) stored
        ∙ ground (arith, has-filter x.id (λ proxy. not (has proxy.id (ids stored))) new u.0),
    import-HasUniqueIds new stored u.1 v,
  )
]

imported_proxies-HasUniqueIds :
    (file_type : ProxyUrlImportFileType) (source : Text)
    → HasUniqueIds (imported_proxies file_type source)
unfolding imported_proxies
imported_proxies-HasUniqueIds v2ray source = tt
imported_proxies-HasUniqueIds _ source = (refl, (refl, tt))

Step-HasUniqueIds :
    {hours_ago : ℕ → Text} {s s' : MockState}
    → Step hours_ago s s'
    → HasUniqueIds s.proxies
    → HasUniqueIds s'.proxies
unfolding delete_mock_proxy update_mock_settings reset_mock_proxy_store submit_from_host
Step-HasUniqueIds {s} (deleted id e) u =
    rw e (filter-HasUniqueIds (λ proxy. not (has_id id proxy)) s.proxies u)
Step-HasUniqueIds {s} (imported host file_type e) u = rw e (
    import-HasUniqueIds (imported_proxies file_type (import_source file_type host)) s.proxies
      (imported_proxies-HasUniqueIds file_type _) u)
Step-HasUniqueIds (updated settings e) u = rw e u
Step-HasUniqueIds {hours_ago} (reset e) u = rw e (seed-HasUniqueIds hours_ago)

-- In every state that the mock store reaches from its first one by deletions, imports, changes of the
-- settings and resets, no two proxies share an id.
pub Reach-HasUniqueIds :
    {hours_ago : ℕ → Text} {s : MockState} → Reach hours_ago s → HasUniqueIds s.proxies
unfolding initial_mock_state
Reach-HasUniqueIds {hours_ago} start = seed-HasUniqueIds hours_ago
Reach-HasUniqueIds (next r step) = Step-HasUniqueIds step (Reach-HasUniqueIds r)
