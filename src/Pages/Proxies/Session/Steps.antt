-- ===== src/Pages/Proxies/Session/Steps.antt =====
-- dashboard/src/pages/ProxiesPage.tsx: what can happen on the page while no deletion answers with a list.
use proxy_pool_architect.Base.{ℕ, ◌≡◌}
use proxy_pool_architect.Base.Text.{Text}
use proxy_pool_architect.Effects.{Result}
use proxy_pool_architect.Types.Records.{
  ProxyEndpoint, ProxyListResponse, ProxyFilterOptions, DeleteProxyResult,
}
use proxy_pool_architect.Pages.Proxies.{
  ProxyFilterState, ProxiesState, begin_details, end_details, close_drawer,
}
use proxy_pool_architect.Pages.Proxies.Session.{
  Session, mount, change_language, end_options, end_list, change_filters, reset, press_previous,
  press_next, on_state, ask_delete, cancel_delete, DeleteRun, begin_delete, end_delete,
}

-- The handlers that set neither filters nor page.
pub data Handler : (ProxiesState → ProxiesState) → Type 0 where
  opened : (proxy : ProxyEndpoint) → Handler (begin_details proxy)
  detailed :
      (detail_error : Text) (result : Result ProxyEndpoint)
      → Handler (end_details detail_error result)
  closed : Handler close_drawer
  delete_asked : (proxy : ProxyEndpoint) → Handler (ask_delete proxy)
  delete_cancelled : Handler cancel_delete
  delete_begun : Handler begin_delete
  delete_answered :
      (delete_error not_deleted : Text) (run : DeleteRun) (result : Result DeleteProxyResult)
      → Handler (end_delete delete_error not_deleted run result)

pub data Step (s s' : Session) : Type 0 where
  language_changed : s' ≡ change_language s → Step s s'
  options_answered :
      (filter_error : Text) (n : ℕ) (result : Result ProxyFilterOptions)
      → s' ≡ end_options filter_error n result s
      → Step s s'
  list_answered :
      (list_error : Text) (n : ℕ) (result : Result ProxyListResponse)
      → s' ≡ end_list list_error n result s
      → Step s s'
  filters_changed : (next : ProxyFilterState) → s' ≡ change_filters next s → Step s s'
  filters_reset : s' ≡ reset s → Step s s'
  went_back : s' ≡ press_previous s → Step s s'
  went_on : s' ≡ press_next s → Step s s'
  handled : (f : ProxiesState → ProxiesState) → Handler f → s' ≡ on_state f s → Step s s'

pub data Reach : Session → Type 0 where
  start : Reach mount
  step : {s s' : Session} → Reach s → Step s s' → Reach s'
