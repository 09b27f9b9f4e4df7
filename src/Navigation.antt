-- ===== src/Navigation.antt =====
-- dashboard/src/navigation.ts: the routes behind the address's hash.
pub mod Routes
use proxy_pool_architect.Base.{
  ℕ, Bool, true, false, Option, none, some, List, [], ◌∷◌, map, find, if◌then◌else◌, nat_beq,
}
use proxy_pool_architect.Base.Text.{Text, codes, text_beq, truthy}
use proxy_pool_architect.Types.Unions.{
  DashboardRoute, overview, proxies, providers, geo, validation, logs, settings, doc, route_text,
}
use proxy_pool_architect.Types.Records.{NavigationItem}

abbrev pub item : DashboardRoute → Text → NavigationItem
item route label_key = record { route = route; label_key = label_key }

unfoldable pub navigation_items : List NavigationItem
navigation_items =
    item overview (codes "nav.overview")
    ∷ item proxies (codes "nav.proxies")
    ∷ item providers (codes "nav.providers")
    ∷ item geo (codes "nav.geo")
    ∷ item validation (codes "nav.validation")
    ∷ item logs (codes "nav.logs")
    ∷ item settings (codes "nav.settings")
    ∷ item doc (codes "nav.doc")
    ∷ []

unfoldable pub route_title_keys : DashboardRoute → Text
route_title_keys overview = codes "nav.overview"
route_title_keys proxies = codes "nav.proxies"
route_title_keys providers = codes "nav.providers"
route_title_keys geo = codes "nav.geo"
route_title_keys validation = codes "nav.validation"
route_title_keys logs = codes "nav.logs"
route_title_keys settings = codes "nav.settings"
route_title_keys doc = codes "nav.doc"

abbrev strip_slash : Text → Text
strip_slash [] = []
strip_slash (c ∷ s) = if nat_beq c b'/' then s else c ∷ s

-- `hash.replace(/^#\/?/, "")`
abbrev pub strip_hash : Text → Text
strip_hash [] = []
strip_hash (c ∷ s) = if nat_beq c b'#' then strip_slash s else c ∷ s

abbrev route_of : Option NavigationItem → DashboardRoute
route_of none = overview
route_of (some match) = match.route

unfoldable pub to_route : Text → DashboardRoute
unfolding navigation_items
to_route hash =
    let stripped = strip_hash hash in
    let value = if truthy stripped then stripped else codes "overview" in
    route_of (find (λ item. text_beq (route_text item.route) value) navigation_items)
