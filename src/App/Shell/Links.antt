-- ===== src/App/Shell/Links.antt =====
-- dashboard/src/components/layout/AppShell.tsx with dashboard/src/App.tsx and dashboard/src/navigation.ts:
-- where the links lead.
use proxy_pool_architect.Base.{Bool, true, ◌≡◌, refl, Option, [], ◌∷◌, ◌++◌, filter}
use proxy_pool_architect.Base.Text.{Text, codes}
use proxy_pool_architect.Types.Unions.{
  DashboardRoute, overview, proxies, providers, geo, validation, logs, settings, doc, route_text,
}
use proxy_pool_architect.I18n.{Language}
use proxy_pool_architect.Navigation.{to_route, route_title_keys}
use proxy_pool_architect.ApiClient.Client.{DashboardDataMode}
use proxy_pool_architect.App.{AppState, handle_hash_change}
use proxy_pool_architect.App.Shell.{NavLink, Frame, app_shell}

module _ (language : Language) (mode : DashboardDataMode) (s : AppState) (user_label : Option Text)
    (has_logout : Bool) where
  abbrev pub followed : DashboardRoute → AppState
  followed route = handle_hash_change (codes "#/" ++ route_text route) s

  abbrev pub frame_after : DashboardRoute → Frame
  frame_after route =
      app_shell language mode (followed route).theme (followed route).route user_label has_logout

  -- For each route the navigation has a link, and following it leads to that route: the page then marks
  -- this link, which has the page's heading as its label, and no other, in any language and whoever is
  -- logged in.
  pub followed_lem :
      (route : DashboardRoute)
      → ((followed route).route ≡ route)
        × (filter (λ (link : NavLink). link.active) (frame_after route).links
            ≡ record {
              href = codes "#/" ++ route_text route;
              label = (frame_after route).heading;
              active = true;
            }
              ∷ [])
  unfolding handle_hash_change to_route app_shell route_title_keys
  followed_lem overview = (refl, refl)
  followed_lem proxies = (refl, refl)
  followed_lem providers = (refl, refl)
  followed_lem geo = (refl, refl)
  followed_lem validation = (refl, refl)
  followed_lem logs = (refl, refl)
  followed_lem settings = (refl, refl)
  followed_lem doc = (refl, refl)
