-- ===== src/Pages/Proxies/Session/Ending.antt =====
-- dashboard/src/pages/ProxiesPage.tsx: the loads of the list come to an end.
use proxy_pool_architect.Base.{
  ◌+◌, ◌-◌, ◌≤◌, ◌<◌, ◌≡◌, ◌⊎◌, List, [], ◌∷◌, refl, ap, Bool, Option, none, some, true, false, inl,
  inr, arith, max, nat_beq, length, if◌then◌else◌,
}
use proxy_pool_architect.Base.Text.{Text}
use proxy_pool_architect.Effects.{Result, ok, err}
use proxy_pool_architect.Types.Records.{ProxyListResponse}
use proxy_pool_architect.Pages.Proxies.{has_run_empty}
use proxy_pool_architect.Pages.Proxies.Session.{
  Asked, Session, run_list, list_answer, end_list, asked_now, end_run,
}
use proxy_pool_architect.Pages.Proxies.Session.Steps.{Reach, step, list_answered}
use proxy_pool_architect.Pages.Proxies.Session.Fresh.{
  IsAnswered, Reach-IsAnswered, has_run_empty-page, some-injective,
}

-- The answers come one after the other, each to the load that waits then, as long as one does.
unfoldable pub answer_all : Text → List (Result ProxyListResponse) → Session → Session
unfolding end_list
answer_all list_error [] s = s
answer_all list_error (result ∷ results) s =
    let rest = answer_all list_error results (end_list list_error s.list_run result s) in
    if s.state.loading then rest else s

-- After an answer nothing loads, or the page before is loaded.
abbrev HasMoved : Session → Session → Type 0
HasMoved s s' = (s'.state.loading ≡ false) ⊎ (s'.state.page + 1 ≤ s.state.page)

if-HasMoved :
    (b : Bool) (s r r' : Session)
    → (b ≡ true → HasMoved s r)
    → (b ≡ false → HasMoved s r')
    → HasMoved s (if b then r else r')
if-HasMoved true s r r' h k = h refl
if-HasMoved false s r r' h k = k refl

end_list-HasMoved :
    (list_error : Text) (result : Result ProxyListResponse) (s : Session)
    → IsAnswered s
    → HasMoved s (end_list list_error s.list_run result s)
unfolding end_list run_list
end_list-HasMoved text result s fresh =
    if-HasMoved (nat_beq s.list_run s.list_run) s _ s (λ current. ended _ fresh.1)
      (λ other. ground arith)
  where
    moved :
        (asked : Asked) (result : Result ProxyListResponse)
        → asked ≡ asked_now s.state
        → HasMoved s (list_answer asked text result s)
    moved asked (err e) now = inl refl
    moved asked (ok response) now =
        if-HasMoved (has_run_empty response asked.page) s _ _
          (λ empty.
            let more : 1 < s.state.page =
              rw (ap (λ (a : Asked). a.page) now) at
                (has_run_empty-page response asked.page empty) in
            if-HasMoved (nat_beq (max 1 (s.state.page - 1)) s.state.page) s _ _ (λ same. inl refl)
              (λ differs. inr (omega arith)))
          (λ filled. inl refl)

    ended :
        (closure : Option Asked)
        → closure ≡ some (asked_now s.state)
        → HasMoved s (end_run text result s closure)
    ended none known = cc
    ended (some asked) known = moved asked result (some-injective asked (asked_now s.state) known)

if-idle :
    (b : Bool) (rest s : Session)
    → (b ≡ true → rest.state.loading ≡ false)
    → (b ≡ false → s.state.loading ≡ false)
    → (if b then rest else s).state.loading ≡ false
if-idle true rest s h k = h refl
if-idle false rest s h k = k refl

idle :
    (list_error : Text) (results : List (Result ProxyListResponse)) (s : Session)
    → s.state.loading ≡ false
    → (answer_all list_error results s).state.loading ≡ false
unfolding answer_all
idle text [] s h = h
idle text (result ∷ results) s h = if-idle s.state.loading _ s (λ loads. cc) (λ rests. rests)

-- In every state that the page reaches while no deletion has asked for its list, as many answers as its
-- page number are enough to end its loading, whatever the answers are: each of them ends it, or leads to
-- the page before.
pub answer_all-ends :
    (list_error : Text) (results : List (Result ProxyListResponse)) {s : Session}
    → Reach s
    → s.state.page ≤ length results
    → (answer_all list_error results s).state.loading ≡ false
unfolding answer_all
answer_all-ends text [] r enough = absurd (omega (arith, (Reach-IsAnswered r).0))
answer_all-ends text (result ∷ results) {s} r enough =
    let later = step r (list_answered text s.list_run result refl) in
    if-idle s.state.loading _ s
      (λ loads. elim (end_list-HasMoved text result s (Reach-IsAnswered r)) [
        | inl ended ↦ idle text results _ ended
        | inr moved ↦ answer_all-ends text results later (omega arith)
      ])
      (λ rests. rests)
