-- ===== src/MockStore/Deletion.antt =====
-- dashboard/src/lib/mock-data.ts: what a deletion does to the store.
use proxy_pool_architect.Base.{
  ◌≡◌, ◌≢◌, refl, not, none, List, [], ◌∷◌, ◌++◌, filter, find, any, length, length-filter-le, ltb,
  arith,
}
use proxy_pool_architect.Base.Text.{Text, codes, text_beq_iff}
use proxy_pool_architect.Effects.{js_error, err}
use proxy_pool_architect.Types.Records.{ProxyEndpoint}
use proxy_pool_architect.MockStore.{MockState, has_id, get_mock_proxy, delete_mock_proxy}

abbrev without : Text → List ProxyEndpoint → List ProxyEndpoint
without id = filter (λ proxy. not (has_id id proxy))

find-without_self : (id : Text) (xs : List ProxyEndpoint) → find (has_id id) (without id xs) ≡ none
find-without_self id [] = refl
find-without_self id (x ∷ xs) = ground (arith, find-without_self id xs)

find-without_ne :
    (id other : Text) (xs : List ProxyEndpoint)
    → other ≢ id
    → find (has_id other) (without id xs) ≡ find (has_id other) xs
find-without_ne id other [] ne = refl
find-without_ne id other (x ∷ xs) ne =
    ground (arith, text_beq_iff x.id id, text_beq_iff x.id other, find-without_ne id other xs ne)

length-without :
    (id : Text) (xs : List ProxyEndpoint)
    → ltb (length (without id xs)) (length xs) ≡ any (has_id id) xs
length-without id [] = refl
length-without id (x ∷ xs) =
    ground (arith, length-without id xs, length-filter-le (λ proxy. not (has_id id proxy)) xs)

-- A deletion succeeds exactly when a proxy has the id; afterwards no proxy is found under the id, what
-- is found under any other id is as before, and the settings are as before.
pub delete_mock_proxy_lem :
    (id other : Text) (s : MockState)
    → other ≢ id
    → let (result, s') = delete_mock_proxy id s in
      (result.ok ≡ any (has_id id) s.proxies)
      × (get_mock_proxy id s' ≡ err (js_error (codes "Proxy not found: " ++ id)))
      × (get_mock_proxy other s' ≡ get_mock_proxy other s)
      × (s'.settings ≡ s.settings)
unfolding delete_mock_proxy get_mock_proxy
delete_mock_proxy_lem id other s ne = (
  length-without id s.proxies,
  ground (arith, find-without_self id s.proxies),
  ground (arith, find-without_ne id other s.proxies ne),
  refl,
)

pub delete_mock_proxy_ok :
    (id : Text) (s : MockState) → (delete_mock_proxy id s).0.ok ≡ any (has_id id) s.proxies
unfolding delete_mock_proxy
delete_mock_proxy_ok id s = length-without id s.proxies
