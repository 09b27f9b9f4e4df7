-- ===== src/App/Shell.antt =====
-- dashboard/src/components/layout/AppShell.tsx, as dashboard/src/App.tsx uses it: the links of the
-- navigation and what the top bar shows.
pub mod Links
use proxy_pool_architect.Base.{Bool, Option, none, some, List, map, ◌++◌, if◌then◌else◌}
use proxy_pool_architect.Base.Text.{Text, codes, text_beq, non_empty}
use proxy_pool_architect.Types.Unions.{DashboardRoute, route_text}
use proxy_pool_architect.Types.Records.{NavigationItem}
use proxy_pool_architect.Navigation.{navigation_items, route_title_keys}
use proxy_pool_architect.I18n.{Language, translate}
use proxy_pool_architect.ApiClient.Client.{DashboardDataMode, mock, live}
use proxy_pool_architect.App.{ThemeMode, dark, light}

-- `active` is whether the link is marked as the current page.
pub record NavLink : Type 0 where
  pub href : Text
  pub label : Text
  pub active : Bool

abbrev pub nav_link : Language → DashboardRoute → NavigationItem → NavLink
nav_link language active_route item = record {
  href = codes "#/" ++ route_text item.route;
  label = translate language item.label_key none;
  active = text_beq (route_text item.route) (route_text active_route);
}

pub record Frame : Type 0 where
  pub links : List NavLink
  pub heading : Text
  pub user_badge : Option Text
  pub theme_button : Text
  pub logout_button : Option Text
  pub mode_badge : Text

abbrev pub theme_label : Language → ThemeMode → Text
theme_label language dark = translate language (codes "theme.light") none
theme_label language light = translate language (codes "theme.dark") none

abbrev pub mode_label : Language → DashboardDataMode → Text
mode_label language live = translate language (codes "mode.live") none
mode_label language mock = translate language (codes "mode.mock") none

-- A label or a button that is there only if its text is.
abbrev pub shown_text : Option Text → Option Text
shown_text label = non_empty label

unfoldable pub app_shell :
    Language
    → DashboardDataMode
    → ThemeMode
    → (active_route : DashboardRoute) (user_label : Option Text) (has_logout : Bool) → Frame
unfolding navigation_items route_title_keys translate
app_shell language mode theme active_route user_label has_logout = record {
  links = map (nav_link language active_route) navigation_items;
  heading = translate language (route_title_keys active_route) none;
  user_badge = shown_text user_label;
  theme_button = theme_label language theme;
  logout_button =
      if has_logout
      then shown_text (some (translate language (codes "auth.logout") none))
      else none;
  mode_badge = mode_label language mode;
}
