-- ===== src/Pages/Proxies.antt =====
-- dashboard/src/pages/ProxiesPage.tsx: the state of the proxies page and its handlers. `number` reads the
-- text of the form's number field, which the browser keeps to numbers. A handler that waits for the
-- client is a function of the page's state and the client's, as it runs when nothing comes between.
pub mod Deletion
pub mod Session
pub mod Message
pub mod Drawer
pub mod Filters
use proxy_pool_architect.Base.{
  ℕ, ◌+◌, ◌-◌, ◌*◌, ◌/◌, Bool, true, false, ◌&&◌, Option, none, some, List, [], ◌∷◌, if◌then◌else◌,
  ltb, max, min,
}
use proxy_pool_architect.Base.Text.{Text, codes, text_beq, trim, truthy, non_empty}
use proxy_pool_architect.Effects.{Exception, js_error, Result, ok, err, message_or}
use proxy_pool_architect.Types.Unions.{ProxyPool, ProxyScheme, ProxyAnonymity}
use proxy_pool_architect.Types.Records.{
  ProxyEndpoint, ProxyListQuery, ProxyListResponse, ProxyFilterOptions, DeleteProxyResult,
}
use proxy_pool_architect.ApiClient.Call.{ClientState, Server}
use proxy_pool_architect.ApiClient.Client.{
  DashboardDataMode, Environment, list_proxies, delete_proxy,
}

-- An empty choice is `none`.
pub record ProxyFilterState : Type 0 where
  pub pool : Option ProxyPool
  pub scheme : Option ProxyScheme
  pub anonymity : Option ProxyAnonymity
  pub country : Text
  pub source : Text
  pub min_score : Text
  pub query : Text

abbrev pub default_filters : ProxyFilterState
default_filters = record {
  pool = none;
  scheme = none;
  anonymity = none;
  country = [];
  source = [];
  min_score = [];
  query = [];
}

abbrev pub proxies_page_size : ℕ
proxies_page_size = 8

-- `shown` is the page's `data`.
pub record ProxiesState : Type 0 where
  pub filters : ProxyFilterState
  pub options : ProxyFilterOptions
  pub page : ℕ
  pub shown : Option ProxyListResponse
  pub loading : Bool
  pub error : Option Text
  pub drawer_open : Bool
  pub selected_proxy : Option ProxyEndpoint
  pub drawer_loading : Bool
  pub delete_target : Option ProxyEndpoint
  pub delete_pending : Bool

-- The query of the list request.
unfoldable pub query_of : (Text → ℕ) → ProxyFilterState → (page : ℕ) → ProxyListQuery
query_of number filters page = record {
  pool = filters.pool;
  scheme = filters.scheme;
  anonymity = filters.anonymity;
  country = non_empty (some filters.country);
  source = non_empty (some filters.source);
  min_score = if truthy filters.min_score then some (number filters.min_score) else none;
  q = non_empty (some (trim filters.query));
  limit = some proxies_page_size;
  offset = some ((page - 1) * proxies_page_size);
}

-- The page has run empty while others have not.
abbrev pub has_run_empty : ProxyListResponse → ℕ → Bool
has_run_empty response page = elim response.items [
  | [] ↦ ltb 0 response.total && ltb 1 page
  | item ∷ items ↦ false
]

unfoldable pub handle_filter_change : ProxyFilterState → ProxiesState → ProxiesState
handle_filter_change next s = record s { filters = next; page = 1 }

unfoldable pub reset_filters : ProxiesState → ProxiesState
reset_filters s = record s { filters = default_filters; page = 1 }

-- `openProxyDetails` up to its request, and from its end on.
unfoldable pub begin_details : ProxyEndpoint → ProxiesState → ProxiesState
begin_details proxy s = record s {
  drawer_open = true;
  selected_proxy = some proxy;
  drawer_loading = true;
}

unfoldable pub end_details : Text → Result ProxyEndpoint → ProxiesState → ProxiesState
end_details detail_error (ok detail) s = record s {
  selected_proxy = some detail;
  drawer_loading = false;
}
end_details detail_error (err e) s = record s {
  error = some (message_or detail_error e);
  drawer_loading = false;
}

unfoldable pub close_drawer : ProxiesState → ProxiesState
close_drawer s = record s { drawer_open = false; selected_proxy = none; drawer_loading = false }

-- `if (selectedProxy?.id === deleteTarget.id) { closeDrawer(); }`
abbrev pub is_selected : Text → Option ProxyEndpoint → Bool
is_selected id none = false
is_selected id (some proxy) = text_beq proxy.id id

abbrev pub close_if_selected : Text → ProxiesState → ProxiesState
close_if_selected id s = if is_selected id s.selected_proxy then close_drawer s else s

abbrev pub fail_delete : Text → Exception → ProxiesState → ProxiesState
fail_delete delete_error e s = record s {
  error = some (message_or delete_error e);
  delete_pending = false;
}

-- What `confirmDelete` does with the list that it asks for after the deletion. The page is that of the
-- click.
abbrev pub list_again : Text → Result ProxyListResponse → ProxiesState → ProxiesState
list_again delete_error (err e) s = fail_delete delete_error e s
list_again delete_error (ok response) s =
    if has_run_empty response s.page
    then record s { page = max 1 (s.page - 1); delete_target = none; delete_pending = false }
    else record s { shown = some response; delete_target = none; delete_pending = false }

module _ (number : Text → ℕ) (env : Environment) (server : Server) (timeout_ms : ℕ)
    (mode : DashboardDataMode) (delete_error not_deleted : Text) where
  abbrev pub after_delete :
      Text → Result DeleteProxyResult → ProxiesState → ClientState → ProxiesState × ClientState
  after_delete id (err e) s c = (fail_delete delete_error e s, c)
  after_delete id (ok result) s c =
      let listed = list_proxies env server timeout_ms mode (query_of number s.filters s.page) c in
      if result.ok
      then (list_again delete_error listed.0 (close_if_selected id s), listed.1)
      else (fail_delete delete_error (js_error not_deleted) s, c)

  abbrev pub delete_of :
      Option ProxyEndpoint → ProxiesState → ClientState → ProxiesState × ClientState
  delete_of none s c = (s, c)
  delete_of (some target) s c =
      let deleted = delete_proxy env server timeout_ms mode target.id c in
      after_delete target.id deleted.0 (record s { delete_pending = true }) deleted.1

  unfoldable pub confirm_delete : ProxiesState → ClientState → ProxiesState × ClientState
  unfolding close_drawer query_of
  confirm_delete s c = delete_of s.delete_target s c
