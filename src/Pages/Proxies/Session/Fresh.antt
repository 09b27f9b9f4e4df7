-- ===== src/Pages/Proxies/Session/Fresh.antt =====
-- dashboard/src/pages/ProxiesPage.tsx: what the list was asked for with, while no deletion answers with a
-- list.
use proxy_pool_architect.Base.{
  ℕ, ◌+◌, ◌-◌, ◌≤◌, ◌<◌, ◌≡◌, ◌≢◌, ◌&&◌, List, [], ◌∷◌, refl, ap, ◌∙◌, sym, Bool, true, false, not,
  Option, none, some, ◌⊎◌, inl, inr, arith, max, min, ltb, nat_beq, nat_beq_iff, if◌then◌else◌,
}
use proxy_pool_architect.Base.Text.{Text}
use proxy_pool_architect.Effects.{Result, ok, err, message_or}
use proxy_pool_architect.Types.Records.{ProxyEndpoint, ProxyListResponse}
use proxy_pool_architect.Pages.Proxies.{
  ProxiesState, has_run_empty, handle_filter_change, reset_filters, begin_details, end_details,
  close_drawer, is_selected,
}
use proxy_pool_architect.Pages.Proxies.Session.{
  Asked, Session, asked_now, run_options, run_list, mount, change_language, end_options, set_page,
  list_answer, closure_of, end_run, end_list, change_filters, reset, total_pages_shown,
  press_previous, press_next, on_state, end_delete,
}
use proxy_pool_architect.Pages.Proxies.Session.Steps.{
  Handler, opened, detailed, closed, delete_asked, delete_cancelled, delete_begun, delete_answered,
  Step, language_changed, options_answered, list_answered, filters_changed, filters_reset,
  went_back, went_on, handled, Reach, start, step,
}

abbrev HasError : ProxiesState → Type 0
HasError s = (message : Text) × (s.error ≡ some message)

-- The list that is shown was asked for with the filters and the page that are shown, unless the page
-- shows that it loads or an error.
abbrev pub IsAnswered : Session → Type 0
IsAnswered s =
    (1 ≤ s.state.page)
    × (closure_of s.list_run s.runs ≡ some (asked_now s.state))
    × ((s.state.loading ≡ true)
        ⊎ (((message : Text) × (s.state.error ≡ some message))
            ⊎ (s.answered ≡ some (asked_now s.state))))

record Keeps (f : ProxiesState → ProxiesState) (s : ProxiesState) : Type 0 where
  page : (f s).page ≡ s.page
  asked : asked_now (f s) ≡ asked_now s
  loading : (f s).loading ≡ s.loading
  error : HasError s → HasError (f s)

if-Keeps :
    (b : Bool) (f g : ProxiesState → ProxiesState) (s : ProxiesState)
    → Keeps f s
    → Keeps g s
    → Keeps (λ r. if b then f r else g r) s
if-Keeps true f g s h k = h
if-Keeps false f g s h k = k

close_drawer-Keeps : (s : ProxiesState) → Keeps close_drawer s
unfolding close_drawer
close_drawer-Keeps s = record { page = refl; asked = refl; loading = refl; error = λ h. h }

same-Keeps : (s : ProxiesState) → Keeps (λ r. r) s
same-Keeps s = record { page = refl; asked = refl; loading = refl; error = λ h. h }

Handler-Keeps : {f : ProxiesState → ProxiesState} → Handler f → (s : ProxiesState) → Keeps f s
unfolding begin_details end_details end_delete
Handler-Keeps (opened proxy) s = record {
  page = refl;
  asked = refl;
  loading = refl;
  error = λ h. h;
}
Handler-Keeps (detailed text (ok detail)) s = record {
  page = refl;
  asked = refl;
  loading = refl;
  error = λ h. h;
}
Handler-Keeps (detailed text (err e)) s = record {
  page = refl;
  asked = refl;
  loading = refl;
  error = λ h. (message_or text e, refl);
}
Handler-Keeps closed s = close_drawer-Keeps s
Handler-Keeps (delete_asked proxy) s = record {
  page = refl;
  asked = refl;
  loading = refl;
  error = λ h. h;
}
Handler-Keeps delete_cancelled s = record {
  page = refl;
  asked = refl;
  loading = refl;
  error = λ h. h;
}
Handler-Keeps delete_begun s = record { page = refl; asked = refl; loading = refl; error = λ h. h }
Handler-Keeps (delete_answered text not_deleted run (err e)) s = record {
  page = refl;
  asked = refl;
  loading = refl;
  error = λ h. (message_or text e, refl);
}
Handler-Keeps (delete_answered text not_deleted run (ok result)) s =
    if-Keeps (not result.ok) _ _ s
      (record { page = refl; asked = refl; loading = refl; error = λ h. (not_deleted, refl) })
      (if-Keeps (is_selected run.target.id run.selected) close_drawer (λ r. r) s
        (close_drawer-Keeps s) (same-Keeps s))

on_state-IsAnswered :
    (f : ProxiesState → ProxiesState) (s : Session)
    → Keeps f s.state
    → IsAnswered s
    → IsAnswered (on_state f s)
on_state-IsAnswered f s keeps fresh =
    (omega (arith, keeps.page), fresh.1 ∙ ap some (sym keeps.asked), shown fresh.2)
  where
    shown :
        ((s.state.loading ≡ true) ⊎ (HasError s.state ⊎ (s.answered ≡ some (asked_now s.state))))
        → ((f s.state).loading ≡ true)
          ⊎ (HasError (f s.state) ⊎ (s.answered ≡ some (asked_now (f s.state))))
    shown (inl loading) = inl (keeps.loading ∙ loading)
    shown (inr (inl e)) = inr (inl (keeps.error e))
    shown (inr (inr e)) = inr (inr (e ∙ ap some (sym keeps.asked)))

pub closure_of-last :
    (n : ℕ) (asked : Asked) (runs : List (ℕ × Asked))
    → closure_of n ((n, asked) ∷ runs) ≡ some asked
closure_of-last n asked runs = ground arith

run_list-IsAnswered : (s : Session) → 1 ≤ s.state.page → IsAnswered (run_list s)
unfolding run_list
run_list-IsAnswered s pos =
    (pos, closure_of-last (s.list_run + 1) (asked_now s.state) s.runs, inl refl)

if-IsAnswered :
    (b : Bool) (s s' : Session)
    → (b ≡ true → IsAnswered s)
    → (b ≡ false → IsAnswered s')
    → IsAnswered (if b then s else s')
if-IsAnswered true s s' h k = h refl
if-IsAnswered false s s' h k = k refl

set_page-IsAnswered :
    (page : ℕ) (s : Session) → 1 ≤ page → IsAnswered s → IsAnswered (set_page page s)
set_page-IsAnswered page s pos fresh =
    if-IsAnswered (nat_beq page s.state.page) s _ (λ same. fresh)
      (λ other. run_list-IsAnswered (record s { state = record s.state { page = page } }) pos)

-- A page that has run empty is not the first, so the step back from it is a change, and asks again.
step_back-IsAnswered :
    (page : ℕ) (s : Session) → 1 ≤ page → page ≢ s.state.page → IsAnswered (set_page page s)
step_back-IsAnswered page s pos other =
    if-IsAnswered (nat_beq page s.state.page) s _
      (λ same. absurd (other ((nat_beq_iff page s.state.page).0 same)))
      (λ differs. run_list-IsAnswered (record s { state = record s.state { page = page } }) pos)

pub has_run_empty-page :
    (response : ProxyListResponse) (page : ℕ) → has_run_empty response page ≡ true → 1 < page
has_run_empty-page response page h = of_items response.items h
  where
    of_items :
        (items : List ProxyEndpoint)
        → (elim items [ [] ↦ ltb 0 response.total && ltb 1 page | item ∷ rest ↦ false ]) ≡ true
        → 1 < page
    of_items [] h = ground arith
    of_items (item ∷ rest) h = cc

pub some-injective : (a b : Asked) → some a ≡ some b → a ≡ b
some-injective a b h = cc

list_answer-IsAnswered :
    (asked : Asked) (list_error : Text) (result : Result ProxyListResponse) (s : Session)
    → asked ≡ asked_now s.state
    → IsAnswered s
    → IsAnswered (list_answer asked list_error result s)
list_answer-IsAnswered asked text (err e) s same fresh =
    (fresh.0, fresh.1, inr (inl (message_or text e, refl)))
list_answer-IsAnswered asked text (ok response) s same fresh =
    if-IsAnswered (has_run_empty response asked.page) _ _
      (λ empty.
        step_back-IsAnswered (max 1 (s.state.page - 1))
          (record s { state = record s.state { loading = false } }) (omega arith)
          (back (
            rw (ap (λ (a : Asked). a.page) same) at
              (has_run_empty-page response asked.page empty))))
      (λ filled. (fresh.0, fresh.1, inr (inr (ap some same))))
  where
    back : 1 < s.state.page → max 1 (s.state.page - 1) ≢ s.state.page
    back more same = omega arith

end_run-IsAnswered :
    (list_error : Text) (result : Result ProxyListResponse) (s : Session) (closure : Option Asked)
    → closure ≡ some (asked_now s.state)
    → IsAnswered s
    → IsAnswered (end_run list_error result s closure)
end_run-IsAnswered text result s none same fresh = fresh
end_run-IsAnswered text result s (some asked) same fresh =
    list_answer-IsAnswered asked text result s (some-injective asked (asked_now s.state) same) fresh

total_pages_shown-pos : (shown : Option ProxyListResponse) → 1 ≤ total_pages_shown shown
total_pages_shown-pos none = omega arith
total_pages_shown-pos (some response) = omega arith

Step-IsAnswered : {s s' : Session} → Step s s' → IsAnswered s → IsAnswered s'
unfolding change_language run_options end_options end_list change_filters reset press_previous
    press_next handle_filter_change reset_filters
Step-IsAnswered {s} (language_changed e) fresh = rw e (run_list-IsAnswered (run_options s) fresh.0)
Step-IsAnswered {s} (options_answered text n (ok options) e) fresh =
    rw e (if-IsAnswered (nat_beq n s.options_run) _ s (λ current. fresh) (λ cancelled. fresh))
Step-IsAnswered {s} (options_answered text n (err f) e) fresh = rw e (
    if-IsAnswered (nat_beq n s.options_run) _ s
      (λ current. (fresh.0, fresh.1, inr (inl (message_or text f, refl)))) (λ cancelled. fresh))
Step-IsAnswered {s} (list_answered text n result e) fresh = rw e (
    if-IsAnswered (nat_beq n s.list_run) _ s
      (λ current.
        end_run-IsAnswered text result s _
          (ap (λ k. closure_of k s.runs) ((nat_beq_iff n s.list_run).0 current) ∙ fresh.1) fresh)
      (λ cancelled. fresh))
Step-IsAnswered {s} (filters_changed next e) fresh = rw e (
    run_list-IsAnswered
      (record s { state = handle_filter_change next s.state; same_object = false }) (omega arith))
Step-IsAnswered {s} (filters_reset e) fresh = rw e (
    if-IsAnswered (s.same_object && nat_beq s.state.page 1) s _ (λ same. fresh)
      (λ other.
        run_list-IsAnswered (record s { state = reset_filters s.state; same_object = true })
          (omega arith)))
Step-IsAnswered {s} (went_back e) fresh = rw e (
    if-IsAnswered (ltb 1 s.state.page && not s.state.loading) _ s
      (λ enabled. set_page-IsAnswered (max 1 (s.state.page - 1)) s (omega arith) fresh)
      (λ disabled. fresh))
Step-IsAnswered {s} (went_on e) fresh = rw e (
    if-IsAnswered (ltb s.state.page (total_pages_shown s.state.shown) && not s.state.loading) _ s
      (λ enabled.
        set_page-IsAnswered (min (total_pages_shown s.state.shown) (s.state.page + 1)) s
          (omega (arith, total_pages_shown-pos s.state.shown)) fresh)
      (λ disabled. fresh))
Step-IsAnswered {s} (handled f handler e) fresh =
    rw e (on_state-IsAnswered f s (Handler-Keeps handler s.state) fresh)

-- In every state that the proxies page reaches, with answers in any order, while no deletion has asked
-- for its list: the page number is at least 1, and the page is loading, shows an error, or shows a list
-- whose own request was made with the filters and the page number that it shows.
pub Reach-IsAnswered : {s : Session} → Reach s → IsAnswered s
unfolding mount
Reach-IsAnswered start = (omega arith, refl, inl refl)
Reach-IsAnswered (step r moved) = Step-IsAnswered moved (Reach-IsAnswered r)
