-- ===== src/Navigation/Routes.antt =====
-- dashboard/src/navigation.ts: which hash leads to which route.
use proxy_pool_architect.Base.{
  true, false, none, ◌≡◌, ◌≢◌, refl, sym, ap, Bool-cases, List, [], ◌∷◌, ◌++◌, find, arith, inl,
  inr, any, ◌&&◌,
}
use proxy_pool_architect.Base.Text.{Text, codes, text_beq, text_beq_iff, truthy}
use proxy_pool_architect.Types.Unions.{
  DashboardRoute, overview, proxies, providers, geo, validation, logs, settings, doc, route_text,
}
use proxy_pool_architect.Types.Records.{NavigationItem}
use proxy_pool_architect.Navigation.{
  navigation_items, route_title_keys, strip_hash, route_of, to_route,
}

-- Each route is reached by its name behind "#/", behind "#" and alone, and its navigation item is
-- labelled with the key of its title.
pub to_route-route_text :
    (r : DashboardRoute)
    → (to_route (codes "#/" ++ route_text r) ≡ r)
      × (to_route (codes "#" ++ route_text r) ≡ r)
      × (to_route (route_text r) ≡ r)
      × (any
            (λ item.
              text_beq (route_text item.route) (route_text r)
              && text_beq item.label_key (route_title_keys r))
            navigation_items
          ≡ true)
unfolding to_route route_title_keys
to_route-route_text overview = (refl, refl, refl, refl)
to_route-route_text proxies = (refl, refl, refl, refl)
to_route-route_text providers = (refl, refl, refl, refl)
to_route-route_text geo = (refl, refl, refl, refl)
to_route-route_text validation = (refl, refl, refl, refl)
to_route-route_text logs = (refl, refl, refl, refl)
to_route-route_text settings = (refl, refl, refl, refl)
to_route-route_text doc = (refl, refl, refl, refl)

module _ (value : Text) (other : (r : DashboardRoute) → value ≢ route_text r) where
  route_text-ne : (r : DashboardRoute) → text_beq (route_text r) value ≡ false
  route_text-ne r = elim (Bool-cases (text_beq (route_text r) value)) [
    | inl same ↦ absurd (other r (sym ((text_beq_iff (route_text r) value).0 same)))
    | inr different ↦ different
  ]

  find-unknown :
      (items : List NavigationItem)
      → find (λ item. text_beq (route_text item.route) value) items ≡ none
  find-unknown [] = refl
  find-unknown (item ∷ items) = ground (arith, route_text-ne item.route, find-unknown items)

-- A hash that names no route leads to the overview.
pub to_route_unknown :
    (hash : Text)
    → ((r : DashboardRoute) → strip_hash hash ≢ route_text r)
    → to_route hash ≡ overview
unfolding to_route
to_route_unknown hash other = elim (Bool-cases (truthy (strip_hash hash))) [
  | inl some_text ↦
      rw some_text (ap route_of (find-unknown (strip_hash hash) other navigation_items))
  | inr empty ↦ rw empty refl
]
