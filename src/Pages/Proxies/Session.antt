-- ===== src/Pages/Proxies/Session.antt =====
-- dashboard/src/pages/ProxiesPage.tsx: the page with its two effects and with handlers whose waits
-- overlap. An effect's run has a number; only the answer to the last run is not cancelled. A handler
-- that waits keeps the values of the click: `DeleteRun` holds those of `confirmDelete`.
pub mod Steps
pub mod Fresh
pub mod Race
pub mod Ending
use proxy_pool_architect.Base.{
  ℕ, ◌+◌, ◌-◌, ◌/◌, Bool, true, false, not, ◌&&◌, Option, none, some, List, [], ◌∷◌, max, min, ltb,
  nat_beq, if◌then◌else◌,
}
use proxy_pool_architect.Base.Text.{Text}
use proxy_pool_architect.Effects.{Exception, js_error, Result, ok, err, message_or}
use proxy_pool_architect.Types.Records.{
  ProxyEndpoint, ProxyListResponse, ProxyFilterOptions, DeleteProxyResult,
}
use proxy_pool_architect.Pages.Proxies.{
  ProxyFilterState, default_filters, ProxiesState, has_run_empty, handle_filter_change,
  reset_filters, begin_details, end_details, close_drawer, is_selected, fail_delete,
}

-- The filters and the page of a list request.
pub record Asked : Type 0 where
  pub filters : ProxyFilterState
  pub page : ℕ

-- `runs` has what each run of the list effect has closed over, by the run's number. `answered` is no
-- variable of the page: it tells what the list that is shown was asked for with, by the request whose
-- answer it is. `same_object` says that the filters are the
-- object `defaultFilters`, by which React tells whether they have changed.
pub record Session : Type 0 where
  pub state : ProxiesState
  pub same_object : Bool
  pub options_run : ℕ
  pub list_run : ℕ
  pub runs : List (ℕ × Asked)
  pub answered : Option Asked

-- What run `n` has closed over.
abbrev pub closure_of : ℕ → List (ℕ × Asked) → Option Asked
closure_of n [] = none
closure_of n ((k, asked) ∷ runs) = if nat_beq k n then some asked else closure_of n runs

abbrev pub asked_now : ProxiesState → Asked
asked_now s = record { filters = s.filters; page = s.page }

-- `emptyOptions` and the other values that the page starts with.
abbrev pub empty_options : ProxyFilterOptions
empty_options = record { countries = []; sources = [] }

abbrev pub initial_proxies : ProxiesState
initial_proxies = record {
  filters = default_filters;
  options = empty_options;
  page = 1;
  shown = none;
  loading = true;
  error = none;
  drawer_open = false;
  selected_proxy = none;
  drawer_loading = false;
  delete_target = none;
  delete_pending = false;
}

-- The two effects, up to their requests.
unfoldable pub run_options : Session → Session
run_options s = record s { options_run = s.options_run + 1 }

unfoldable pub run_list : Session → Session
run_list s =
    let state = record s.state { loading = true; error = none } in
    let n = s.list_run + 1 in
    record s { state = state; list_run = n; runs = (n, asked_now s.state) ∷ s.runs }

unfoldable pub mount : Session
unfolding run_options run_list
mount = run_list (
    run_options (record {
      state = initial_proxies;
      same_object = true;
      options_run = 0;
      list_run = 0;
      runs = [];
      answered = none;
    }))

unfoldable pub change_language : Session → Session
unfolding run_options run_list
change_language s = run_list (run_options s)

abbrev pub set_options : Text → Result ProxyFilterOptions → ProxiesState → ProxiesState
set_options filter_error (ok options) s = record s { options = options }
set_options filter_error (err e) s = record s { error = some (message_or filter_error e) }

-- The answer to run `n` of the options' effect.
unfoldable pub end_options : Text → ℕ → Result ProxyFilterOptions → Session → Session
end_options filter_error n result s =
    if nat_beq n s.options_run
    then record s { state = set_options filter_error result s.state }
    else s

-- `setPage`, after which the list's effect runs if the page is another.
abbrev pub set_page : ℕ → Session → Session
set_page page s =
    if nat_beq page s.state.page
    then s
    else run_list (record s { state = record s.state { page = page } })

-- What a run of the list effect does with its answer, by what it has closed over.
abbrev pub list_answer : Asked → Text → Result ProxyListResponse → Session → Session
list_answer asked list_error (err e) s =
    let state = record s.state { error = some (message_or list_error e); loading = false } in
    record s { state = state }
list_answer asked list_error (ok response) s =
    let idle = record s { state = record s.state { loading = false } } in
    let state = record s.state { shown = some response; loading = false } in
    if has_run_empty response asked.page
    then set_page (max 1 (s.state.page - 1)) idle
    else record s { state = state; answered = some asked }

abbrev pub end_run : Text → Result ProxyListResponse → Session → Option Asked → Session
end_run list_error result s none = s
end_run list_error result s (some asked) = list_answer asked list_error result s

-- The answer to run `n`, which does nothing if that is cancelled.
unfoldable pub end_list : Text → ℕ → Result ProxyListResponse → Session → Session
unfolding run_list
end_list list_error n result s =
    if nat_beq n s.list_run then end_run list_error result s (closure_of n s.runs) else s

-- `handleFilterChange`: the filters are a new object, so the list's effect runs.
unfoldable pub change_filters : ProxyFilterState → Session → Session
unfolding run_list handle_filter_change
change_filters next s =
    run_list (record s { state = handle_filter_change next s.state; same_object = false })

-- `resetFilters`: nothing changes if the filters are the default object and the page is the first.
unfoldable pub reset : Session → Session
unfolding run_list reset_filters
reset s =
    if s.same_object && nat_beq s.state.page 1
    then s
    else run_list (record s { state = reset_filters s.state; same_object = true })

abbrev pub total_pages_shown : Option ProxyListResponse → ℕ
total_pages_shown none = 1
total_pages_shown (some response) = max 1 ((response.total + 7) / 8)

-- The buttons, with what disables them.
unfoldable pub press_previous : Session → Session
unfolding run_list
press_previous s =
    if ltb 1 s.state.page && not s.state.loading then set_page (max 1 (s.state.page - 1)) s else s

unfoldable pub press_next : Session → Session
unfolding run_list
press_next s =
    let total = total_pages_shown s.state.shown in
    if ltb s.state.page total && not s.state.loading
    then set_page (min total (s.state.page + 1)) s
    else s

-- A handler that only sets the page's state, and neither filters nor page.
abbrev pub on_state : (ProxiesState → ProxiesState) → Session → Session
on_state f s = record s { state = f s.state }

abbrev pub ask_delete : ProxyEndpoint → ProxiesState → ProxiesState
ask_delete proxy s = record s { delete_target = some proxy }

-- The dialog's button is not disabled while a deletion waits.
abbrev pub cancel_delete : ProxiesState → ProxiesState
cancel_delete s = record s { delete_target = none }

-- What a call of `confirmDelete` has closed over.
pub record DeleteRun : Type 0 where
  pub target : ProxyEndpoint
  pub selected : Option ProxyEndpoint
  pub asked : Asked

abbrev pub delete_run : ProxyEndpoint → ProxiesState → DeleteRun
delete_run target s = record { target = target; selected = s.selected_proxy; asked = asked_now s }

abbrev pub begin_delete : ProxiesState → ProxiesState
begin_delete s = record s { delete_pending = true }

-- `confirmDelete` from the answer to its deletion up to its list request, which it makes if the answer
-- is good; then the answer to that.
unfoldable pub end_delete :
    (delete_error not_deleted : Text)
    → DeleteRun
    → Result DeleteProxyResult
    → ProxiesState
    → ProxiesState
unfolding close_drawer
end_delete delete_error not_deleted run (err e) s = fail_delete delete_error e s
end_delete delete_error not_deleted run (ok result) s =
    if not result.ok
    then fail_delete delete_error (js_error not_deleted) s
    else if is_selected run.target.id run.selected
    then close_drawer s
    else s

abbrev pub deleted : ProxiesState → ProxiesState
deleted s = record s { delete_target = none; delete_pending = false }

unfoldable pub end_delete_list : Text → DeleteRun → Result ProxyListResponse → Session → Session
unfolding run_list
end_delete_list delete_error run (err e) s = on_state (fail_delete delete_error e) s
end_delete_list delete_error run (ok response) s =
    let state = record s.state { shown = some response } in
    if has_run_empty response run.asked.page
    then on_state deleted (set_page (max 1 (s.state.page - 1)) s)
    else on_state deleted (record s { state = state; answered = some run.asked })
