-- ===== src/Pages/Proxies/Session/Race.antt =====
-- dashboard/src/pages/ProxiesPage.tsx: a deletion whose list comes after the filters have changed.
use proxy_pool_architect.Base.{
  ◌+◌, true, false, ◌≡◌, refl, none, some, ◌&&◌, ltb, nat_beq, Bool-cases, inl, inr, arith, List,
  [], ◌∷◌,
}
use proxy_pool_architect.Base.Text.{Text}
use proxy_pool_architect.Effects.{ok}
use proxy_pool_architect.Types.Records.{ProxyEndpoint, ProxyListResponse, DeleteProxyResult}
use proxy_pool_architect.Pages.Proxies.{
  ProxyFilterState, ProxiesState, has_run_empty, handle_filter_change, close_drawer, is_selected,
}
use proxy_pool_architect.Pages.Proxies.Session.Fresh.{closure_of-last}
use proxy_pool_architect.Pages.Proxies.Session.{
  Asked, Session, closure_of, asked_now, end_list, change_filters, on_state, cancel_delete,
  DeleteRun, delete_run, begin_delete, end_delete, end_delete_list,
}

-- The user confirms the deletion of `target`, closes the dialog while it waits, and changes the
-- filters; the list of the new filters comes, then the answer to the deletion, then its list.
abbrev pub raced :
    (target : ProxyEndpoint) (next : ProxyFilterState) (listed stale : ProxyListResponse)
    (done : DeleteProxyResult) (message : Text)
    → Session
    → Session
raced target next listed stale done message s =
    let run = delete_run target s.state in
    let cancelled = on_state cancel_delete (on_state begin_delete s) in
    let changed = change_filters next cancelled in
    let shown = end_list message changed.list_run (ok listed) changed in
    end_delete_list message run (ok stale)
      (on_state (end_delete message message run (ok done)) shown)

first-has_run_empty : (response : ProxyListResponse) → has_run_empty response 1 ≡ false
first-has_run_empty response = of_items response.items
  where
    of_items :
        (items : List ProxyEndpoint)
        → (elim items [ [] ↦ ltb 0 response.total && ltb 1 1 | item ∷ rest ↦ false ]) ≡ false
    of_items [] = ground arith
    of_items (item ∷ rest) = refl

end_list-current :
    (message : Text) (response : ProxyListResponse) (s : Session) (asked : Asked)
    → closure_of s.list_run s.runs ≡ some asked
    → has_run_empty response asked.page ≡ false
    → end_list message s.list_run (ok response) s ≡ record s {
      state = record s.state { shown = some response; loading = false };
      answered = some asked;
    }
unfolding end_list
end_list-current message response s asked last filled =
    let current : nat_beq s.list_run s.list_run ≡ true = ground arith in
    rw (current, last, filled) refl

end_delete_list-filled :
    (message : Text) (run : DeleteRun) (response : ProxyListResponse) (s : Session)
    → has_run_empty response run.asked.page ≡ false
    → end_delete_list message run (ok response) s ≡ record s {
      state = record s.state {
        shown = some response;
        delete_target = none;
        delete_pending = false;
      };
      answered = some run.asked;
    }
unfolding end_delete_list
end_delete_list-filled message run response s filled = rw filled refl

-- The values that a good answer to a deletion leaves alone.
record Same (s s' : ProxiesState) : Type 0 where
  filters : s'.filters ≡ s.filters
  loading : s'.loading ≡ s.loading
  error : s'.error ≡ s.error

end_delete-Same :
    (message : Text) (run : DeleteRun) (done : DeleteProxyResult) (s : ProxiesState)
    → done.ok ≡ true
    → Same s (end_delete message message run (ok done) s)
unfolding end_delete close_drawer
end_delete-Same message run done s success =
    elim (Bool-cases (is_selected run.target.id run.selected)) [
      | inl open_drawer ↦
          rw (success, open_drawer) (record { filters = refl; loading = refl; error = refl })
      | inr other ↦ rw (success, other) (record { filters = refl; loading = refl; error = refl })
    ]

-- A deletion is confirmed, and while it waits the user closes the dialog and sets other filters. If the
-- list for these is answered first, with a list, then the deletion, as done, and then the list request
-- that the deletion makes, with a list for which the page of the click has not run empty, the page ends
-- without loading or error, and shows that last list, which was asked for with the filters from before,
-- under the filters that the user has set since.
pub raced_stale :
    (target : ProxyEndpoint) (next : ProxyFilterState) (listed stale : ProxyListResponse)
    (done : DeleteProxyResult) (message : Text) (s : Session)
    → done.ok ≡ true
    → has_run_empty stale s.state.page ≡ false
    → let s' = raced target next listed stale done message s in
      (s'.state.filters ≡ next)
      × (s'.state.loading ≡ false)
      × (s'.state.error ≡ none)
      × (s'.state.shown ≡ some stale)
      × (s'.answered ≡ some (asked_now s.state))
unfolding change_filters handle_filter_change
raced_stale target next listed stale done message s success filled =
    let run = delete_run target s.state in
    let changed = change_filters next (on_state cancel_delete (on_state begin_delete s)) in
    let same =
      end_delete-Same message run done
        (record changed.state { shown = some listed; loading = false }) success in
    rw
      (
        end_list-current message listed changed (asked_now changed.state)
            (closure_of-last (s.list_run + 1) (asked_now changed.state) s.runs)
            (first-has_run_empty listed),
        end_delete_list-filled message run stale _ filled,
      )
      (same.filters, same.loading, same.error, refl, refl)
