-- ===== src/Pages/Logs/Fresh.antt =====
-- dashboard/src/pages/LogsPage.tsx: what the page shows in the states that it reaches.
use proxy_pool_architect.Base.{
  ℕ, ◌≤◌, ◌≡◌, refl, Bool, true, false, Option, none, some, ◌⊎◌, inl, inr, Bool-cases, arith,
  nat_beq, max, min, ◌-◌, ◌+◌, if◌then◌else◌,
}
use proxy_pool_architect.Base.Text.{Text}
use proxy_pool_architect.Effects.{Result, ok, err, message_or}
use proxy_pool_architect.Types.Records.{EventLogEntry, PaginatedResponse}
use proxy_pool_architect.Pages.Logs.{
  LogsState, initial_logs, run_effect, offset_of, steps_back, end_load, respond, pages_of,
  total_pages, go_to, previous, next,
}

-- The service answers a request for a page with that page's offset; nothing is asked of the answers to
-- loads that are cancelled.
abbrev pub Echoes : ℕ → LogsState → Result (PaginatedResponse EventLogEntry) → Type 0
Echoes n s (ok events) = n ≡ s.effect → events.offset ≡ offset_of s.page
Echoes n s (err e) = Unit

pub data Step (s s' : LogsState) : Type 0 where
  language_changed : s' ≡ run_effect s → Step s s'
  responded :
      (load_error : Text) (n : ℕ) (result : Result (PaginatedResponse EventLogEntry))
      → Echoes n s result
      → s' ≡ respond load_error n result s
      → Step s s'
  went_back : s' ≡ previous s → Step s s'
  went_on : s' ≡ next s → Step s s'

pub data Reach : LogsState → Type 0 where
  start : Reach (run_effect initial_logs)
  step : {s s' : LogsState} → Reach s → Step s s' → Reach s'

-- Loading goes on, has failed, or has ended with the list of this page.
abbrev pub IsFresh : LogsState → Type 0
IsFresh s =
    (1 ≤ s.page)
    × ((s.loading ≡ true)
        ⊎ (((message : Text) × (s.error ≡ some message))
            ⊎ ((events : PaginatedResponse EventLogEntry) × (s.shown ≡ some events)
                × (events.offset ≡ offset_of s.page))))

run_effect-IsFresh : (s : LogsState) → 1 ≤ s.page → IsFresh (run_effect s)
unfolding run_effect
run_effect-IsFresh s pos = (pos, inl refl)

go_to-IsFresh : (page : ℕ) (s : LogsState) → 1 ≤ page → IsFresh s → IsFresh (go_to page s)
go_to-IsFresh page s pos fresh = elim (Bool-cases (nat_beq page s.page)) [
  | inl same ↦ rw same fresh
  | inr other ↦ rw other (run_effect-IsFresh (record s { page = page }) pos)
]

if-IsFresh : (b : Bool) (s s' : LogsState) → IsFresh s → IsFresh s' → IsFresh (if b then s else s')
if-IsFresh true s s' h h' = h
if-IsFresh false s s' h h' = h'

end_load-IsFresh :
    (load_error : Text) (result : Result (PaginatedResponse EventLogEntry)) (s : LogsState)
    → Echoes s.effect s result
    → IsFresh s
    → IsFresh (end_load load_error result s)
unfolding end_load
end_load-IsFresh text (ok events) s echo fresh =
    if-IsFresh (steps_back events s.page) _ _
      (run_effect-IsFresh (record s { page = max 1 (s.page - 1); loading = false }) (omega arith))
      (fresh.0, inr (inr (events, refl, echo refl)))
end_load-IsFresh text (err e) s echo fresh = (fresh.0, inr (inl (message_or text e, refl)))

Echoes-same :
    (n : ℕ) (s : LogsState) (result : Result (PaginatedResponse EventLogEntry))
    → n ≡ s.effect
    → Echoes n s result
    → Echoes s.effect s result
Echoes-same n s (ok events) same echo = λ _. echo same
Echoes-same n s (err e) same echo = tt

pages_of-positive : (shown : Option (PaginatedResponse EventLogEntry)) → 1 ≤ pages_of shown
unfolding total_pages
pages_of-positive none = omega arith
pages_of-positive (some events) = omega arith

Step-IsFresh : {s s' : LogsState} → Step s s' → IsFresh s → IsFresh s'
unfolding respond previous next
Step-IsFresh {s} (language_changed e) fresh = rw e (run_effect-IsFresh s fresh.0)
Step-IsFresh {s} (responded text n result echo e) fresh =
    rw e (elim (Bool-cases (nat_beq n s.effect)) [
      | inl current ↦
          rw current
            (end_load-IsFresh text result s (Echoes-same n s result (ground arith) echo) fresh)
      | inr cancelled ↦ rw cancelled fresh
    ])
Step-IsFresh {s} (went_back e) fresh =
    rw e (if-IsFresh _ _ _ (go_to-IsFresh (max 1 (s.page - 1)) s (omega arith) fresh) fresh)
Step-IsFresh {s} (went_on e) fresh = rw e (
    if-IsFresh _ _ _
      (go_to-IsFresh (min (pages_of s.shown) (s.page + 1)) s
        (omega (arith, pages_of-positive s.shown)) fresh)
      fresh)

-- In every state that the event log page reaches by changes of the language, presses of its buttons and answers
-- in any order, if the service answers each load that is not cancelled with the offset that was asked
-- for: the page is at least the first; and it is loading, shows an error, or shows a list that begins
-- where the page does.
pub Reach-IsFresh : {s : LogsState} → Reach s → IsFresh s
unfolding run_effect
Reach-IsFresh start = (omega arith, inl refl)
Reach-IsFresh (step r moved) = Step-IsFresh moved (Reach-IsFresh r)
