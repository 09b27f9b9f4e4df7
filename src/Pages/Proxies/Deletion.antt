-- ===== src/Pages/Proxies/Deletion.antt =====
-- dashboard/src/pages/ProxiesPage.tsx: what the page shows after a deletion, with the mock store behind it.
use mathlib.Core.Path.{subst}
use proxy_pool_architect.Base.{
  sym, ap, ◌<◌, ℕ, ◌-◌, ◌≡◌, refl, true, false, not, Option, none, some, List, [], ◌∷◌, All,
  All-filter, filter, any, take, drop, zero, suc, Bool-cases, inl, inr, ◌⊎◌, arith, max,
}
use proxy_pool_architect.Base.Text.{Text}
use proxy_pool_architect.Base.Sort.{sort-All}
use proxy_pool_architect.Effects.{ok}
use proxy_pool_architect.Types.Records.{ProxyEndpoint, ProxyListQuery, ProxyListResponse}
use proxy_pool_architect.ProxyList.{filter_and_sort_proxies, listed_after}
use proxy_pool_architect.MockStore.{MockState, has_id, list_mock_proxies, delete_mock_proxy}
use proxy_pool_architect.MockStore.Deletion.{delete_mock_proxy_ok}
use proxy_pool_architect.ApiClient.Call.{ClientState, Server}
use proxy_pool_architect.ApiClient.Client.{Environment, mock, list_proxies, delete_proxy}
use proxy_pool_architect.Pages.Proxies.{
  ProxiesState, has_run_empty, is_selected, close_if_selected, list_again, confirm_delete,
  delete_of, query_of, close_drawer,
}

module _ {A : Type 0} (P : A → Type 0) where
  All-take : (n : ℕ) (xs : List A) → All P xs → All P (take n xs)
  All-take zero xs h = tt
  All-take (suc n) [] h = tt
  All-take (suc n) (x ∷ xs) h = (h.0, All-take n xs h.1)

  All-drop : (n : ℕ) (xs : List A) → All P xs → All P (drop n xs)
  All-drop zero xs h = h
  All-drop (suc n) [] h = tt
  All-drop (suc n) (x ∷ xs) h = All-drop n xs h.1

-- Another id than the one.
abbrev pub IsOther : Text → ProxyEndpoint → Type 0
IsOther id proxy = has_id id proxy ≡ false

filter-IsOther :
    (id : Text) (xs : List ProxyEndpoint) → All (IsOther id) (filter (λ p. not (has_id id p)) xs)
filter-IsOther id [] = tt
filter-IsOther id (x ∷ xs) = elim (Bool-cases (has_id id x)) [
  | inl same ↦ rw same (filter-IsOther id xs)
  | inr other ↦ rw other (other, filter-IsOther id xs)
]

list_mock_proxies-All :
    (P : ProxyEndpoint → Type 0) (date_parse : Text → Option ℕ) (query : ProxyListQuery)
    (s : MockState)
    → All P s.proxies
    → All P (list_mock_proxies date_parse query s).items
unfolding list_mock_proxies filter_and_sort_proxies
list_mock_proxies-All P date_parse query s h = All-take P _ _ (
    All-drop P _ _ (
      sort-All (listed_after date_parse) P _ (
        All-filter P _ _ (
          All-filter P _ _ (
            All-filter P _ _ (
              All-filter P _ _
                (All-filter P _ _ (All-filter P _ _ (All-filter P _ s.proxies h)))))))))

-- What a page without the id looks like.
abbrev pub IsWithout : Text → Option ProxyListResponse → Type 0
IsWithout id none = Unit
IsWithout id (some response) = All (IsOther id) response.items

-- A drawer that shows the id is closed, and any other is as it was.
abbrev pub IsDrawerClosed : Text → ProxiesState → ProxiesState → Type 0
IsDrawerClosed id s s' =
    ((is_selected id s.selected_proxy ≡ true)
      × (s'.drawer_open ≡ false)
      × (s'.selected_proxy ≡ none)
      × (s'.drawer_loading ≡ false))
    ⊎ ((is_selected id s.selected_proxy ≡ false)
        × (s'.drawer_open ≡ s.drawer_open)
        × (s'.selected_proxy ≡ s.selected_proxy)
        × (s'.drawer_loading ≡ s.drawer_loading))

-- A deletion of the id has been carried through: nothing waits for it, the drawer does not show it, nothing
-- that is stored has the id, and neither has anything that is listed, unless the page steps back to the
-- one before.
abbrev pub IsDeleted : Text → ProxiesState → ProxiesState × ClientState → Type 0
IsDeleted id s (s', c') =
    (s'.delete_target ≡ none)
    × (s'.delete_pending ≡ false)
    × (s'.error ≡ s.error)
    × IsDrawerClosed id s s'
    × All (IsOther id) c'.mock.proxies
    × (IsWithout id s'.shown
        ⊎ ((s'.shown ≡ s.shown) × (s'.page ≡ max 1 (s.page - 1)) × (1 < s.page)))

close_if_selected-closed :
    (id : Text) (s : ProxiesState) → IsDrawerClosed id s (close_if_selected id s)
unfolding close_drawer
close_if_selected-closed id s = elim (Bool-cases (is_selected id s.selected_proxy)) [
  | inl open_one ↦ rw open_one (inl (refl, refl, refl, refl))
  | inr other ↦ rw other (inr (refl, refl, refl, refl))
]

close_if_selected_keeps :
    (id : Text) (s : ProxiesState)
    → ((close_if_selected id s).error ≡ s.error)
      × ((close_if_selected id s).page ≡ s.page)
      × ((close_if_selected id s).shown ≡ s.shown)
unfolding close_drawer
close_if_selected_keeps id s = elim (Bool-cases (is_selected id s.selected_proxy)) [
  | inl open_one ↦ rw open_one (refl, refl, refl)
  | inr other ↦ rw other (refl, refl, refl)
]

has_run_empty-far :
    (response : ProxyListResponse) (page : ℕ) → has_run_empty response page ≡ true → 1 < page
has_run_empty-far response page h = ground arith

list_again-IsDeleted :
    (delete_error id : Text) (response : ProxyListResponse) (s : ProxiesState) (c : ClientState)
    → All (IsOther id) c.mock.proxies
    → All (IsOther id) response.items
    → IsDeleted id s (list_again delete_error (ok response) (close_if_selected id s), c)
list_again-IsDeleted delete_error id response s c stored listed =
    let (error, page, shown) = close_if_selected_keeps id s in
    let closed = close_if_selected-closed id s in
    elim (Bool-cases (has_run_empty response (close_if_selected id s).page)) [
      | inl back ↦
          let far = has_run_empty-far response (close_if_selected id s).page back in
          rw back (
            refl,
            refl,
            error,
            closed,
            stored,
            inr (shown, ap (λ n. max 1 (n - 1)) page, omega arith),
          )
      | inr stays ↦ rw stays (refl, refl, error, closed, stored, inl listed)
    ]

module _ (number : Text → ℕ) (env : Environment) (server : Server) (timeout_ms : ℕ)
    (delete_error not_deleted : Text) where
  delete_of-IsDeleted :
      (target : ProxyEndpoint) (s : ProxiesState) (c : ClientState)
      → any (has_id target.id) c.mock.proxies ≡ true
      → IsDeleted target.id s
          (delete_of number env server timeout_ms mock delete_error not_deleted (some target) s c)
  unfolding list_proxies delete_proxy delete_mock_proxy
  delete_of-IsDeleted target s c known =
      let store = (delete_mock_proxy target.id c.mock).1 in
      let query = query_of number s.filters s.page in
      let without = filter-IsOther target.id c.mock.proxies in
      rw (delete_mock_proxy_ok target.id c.mock, known)
        (list_again-IsDeleted delete_error target.id (list_mock_proxies env.date_parse query store)
          (record s { delete_pending = true }) (record c { mock = store }) without
          (list_mock_proxies-All (IsOther target.id) env.date_parse query store without))

  -- In the mock mode, if the proxy that is to be deleted is in the store, confirming its deletion closes
  -- the dialog and, if it shows that proxy, the drawer, which else stays as it is, and raises no error; neither the store nor the
  -- list shown then has a proxy with its id, unless the page has run empty and steps back by one.
  pub confirm_delete-IsDeleted :
      (target : ProxyEndpoint) (s : ProxiesState) (c : ClientState)
      → s.delete_target ≡ some target
      → any (has_id target.id) c.mock.proxies ≡ true
      → IsDeleted target.id s
          (confirm_delete number env server timeout_ms mock delete_error not_deleted s c)
  unfolding confirm_delete
  confirm_delete-IsDeleted target s c asked known =
      subst
        (λ o.
          IsDeleted target.id s
            (delete_of number env server timeout_ms mock delete_error not_deleted o s c))
        (sym asked) (delete_of-IsDeleted target s c known)
