-- ===== src/Pages/Validation/Fresh.antt =====
-- dashboard/src/pages/ValidationPage.tsx: what the page shows in the states that it reaches.
use proxy_pool_architect.Base.{
  ℕ, ◌≤◌, ◌≡◌, refl, Bool, true, false, some, ◌⊎◌, inl, inr, arith, nat_beq, ltb, max, min, ◌-◌,
  ◌+◌, ◌*◌, if◌then◌else◌,
}
use proxy_pool_architect.Base.Text.{Text}
use proxy_pool_architect.Effects.{Result, ok, err, message_or}
use proxy_pool_architect.Types.Records.{PaginatedResponse, ValidationJob, OverviewData}
use proxy_pool_architect.Pages.Validation.Screen.{
  ValidationState, initial_validation, Answers, run_effect, is_empty_page, set_page, loaded,
  end_load, View, loading_view, error_view, empty_view, shown_view, view, turn_back, turn_on,
  previous, next, job_page_size,
}

-- What the list of jobs is asked for by.
abbrev pub jobs_offset_of : ℕ → ℕ
jobs_offset_of page = (page - 1) * job_page_size

-- The service answers a request for a page of jobs with that page's offset; nothing is asked of the
-- answers to loads that are cancelled.
abbrev pub Echoes : ℕ → ValidationState → Result Answers → Type 0
Echoes n s (ok answers) = n ≡ s.effect → answers.validation_jobs.offset ≡ jobs_offset_of s.page
Echoes n s (err e) = Unit

pub data Step (s s' : ValidationState) : Type 0 where
  language_changed : s' ≡ run_effect s → Step s s'
  responded :
      (load_error : Text) (n : ℕ) (result : Result Answers)
      → Echoes n s result
      → s' ≡ end_load load_error n result s
      → Step s s'
  went_back : s' ≡ previous s → Step s s'
  went_on : s' ≡ next s → Step s s'

pub data Reach : ValidationState → Type 0 where
  start : Reach (run_effect initial_validation)
  step : {s s' : ValidationState} → Reach s → Step s s' → Reach s'

-- The page loads, shows an error, or has the jobs of its page with an overview.
abbrev pub IsCurrent : ValidationState → Type 0
IsCurrent s =
    (1 ≤ s.page)
    × ((s.loading ≡ true)
        ⊎ (((message : Text) × (s.error ≡ some message))
            ⊎ ((jobs : PaginatedResponse ValidationJob) × (now : OverviewData) × (s.jobs
                  ≡ some jobs)
                × (s.overview ≡ some now)
                × (jobs.offset ≡ jobs_offset_of s.page))))

run_effect-IsCurrent : (s : ValidationState) → 1 ≤ s.page → IsCurrent (run_effect s)
unfolding run_effect
run_effect-IsCurrent s pos = (pos, inl refl)

if-IsCurrent :
    (b : Bool) (s s' : ValidationState)
    → (b ≡ true → IsCurrent s)
    → (b ≡ false → IsCurrent s')
    → IsCurrent (if b then s else s')
if-IsCurrent true s s' h k = h refl
if-IsCurrent false s s' h k = k refl

set_page-IsCurrent :
    (page : ℕ) (s : ValidationState) → 1 ≤ page → IsCurrent s → IsCurrent (set_page page s)
set_page-IsCurrent page s pos fresh =
    if-IsCurrent (nat_beq page s.page) s _ (λ same. fresh)
      (λ other. run_effect-IsCurrent (record s { page = page }) pos)

-- A page that has run empty is not the first, so the step back from it asks again.
step_back-IsCurrent :
    (jobs : PaginatedResponse ValidationJob) (s : ValidationState)
    → is_empty_page jobs s.page ≡ true
    → IsCurrent (set_page (max 1 (s.page - 1)) (record s { loading = false }))
step_back-IsCurrent jobs s empty =
    if-IsCurrent (nat_beq (max 1 (s.page - 1)) s.page) _ _ (λ same. absurd (ground arith))
      (λ other.
        run_effect-IsCurrent (record s { page = max 1 (s.page - 1); loading = false })
          (omega arith))

loaded-IsCurrent :
    (load_error : Text) (result : Result Answers) (s : ValidationState)
    → Echoes s.effect s result
    → IsCurrent s
    → IsCurrent (loaded load_error result s)
loaded-IsCurrent text (err e) s echo fresh = (fresh.0, inr (inl (message_or text e, refl)))
loaded-IsCurrent text (ok answers) s echo fresh =
    if-IsCurrent (is_empty_page answers.validation_jobs s.page) _ _
      (λ empty. step_back-IsCurrent answers.validation_jobs s empty)
      (λ filled. (
        fresh.0,
        inr (inr (answers.validation_jobs, answers.next_overview, refl, refl, echo refl)),
      ))

Echoes-same :
    (n : ℕ) (s : ValidationState) (result : Result Answers)
    → n ≡ s.effect
    → Echoes n s result
    → Echoes s.effect s result
Echoes-same n s (ok answers) same echo = λ _. echo same
Echoes-same n s (err e) same echo = tt

turn_back-IsCurrent : (v : View) (s : ValidationState) → IsCurrent s → IsCurrent (turn_back v s)
turn_back-IsCurrent (shown_view shown) s fresh =
    if-IsCurrent (ltb 1 s.page) _ s
      (λ enabled. set_page-IsCurrent (max 1 (s.page - 1)) s (omega arith) fresh) (λ disabled. fresh)
turn_back-IsCurrent loading_view s fresh = fresh
turn_back-IsCurrent (error_view message) s fresh = fresh
turn_back-IsCurrent empty_view s fresh = fresh

turn_on-IsCurrent : (v : View) (s : ValidationState) → IsCurrent s → IsCurrent (turn_on v s)
turn_on-IsCurrent (shown_view shown) s fresh =
    if-IsCurrent (ltb s.page shown.total_pages) _ s
      (λ enabled.
        set_page-IsCurrent (min shown.total_pages (s.page + 1)) s (ground (arith, fresh.0)) fresh)
      (λ disabled. fresh)
turn_on-IsCurrent loading_view s fresh = fresh
turn_on-IsCurrent (error_view message) s fresh = fresh
turn_on-IsCurrent empty_view s fresh = fresh

Step-IsCurrent : {s s' : ValidationState} → Step s s' → IsCurrent s → IsCurrent s'
unfolding end_load previous next
Step-IsCurrent {s} (language_changed e) fresh = rw e (run_effect-IsCurrent s fresh.0)
Step-IsCurrent {s} (responded text n result echo e) fresh = rw e (
    if-IsCurrent (nat_beq n s.effect) _ s
      (λ current. loaded-IsCurrent text result s (Echoes-same n s result (ground arith) echo) fresh)
      (λ cancelled. fresh))
Step-IsCurrent {s} (went_back e) fresh = rw e (turn_back-IsCurrent (view s) s fresh)
Step-IsCurrent {s} (went_on e) fresh = rw e (turn_on-IsCurrent (view s) s fresh)

-- In every state that the validation page reaches by changes of the language, presses of its buttons and
-- answers in any order, if the service answers each load that is not cancelled with the offset of the
-- jobs that was asked for: the page is at least the first; and it is loading, has an error, or has an
-- overview with the jobs that begin where the page does.
pub Reach-IsCurrent : {s : ValidationState} → Reach s → IsCurrent s
unfolding run_effect
Reach-IsCurrent start = (omega arith, inl refl)
Reach-IsCurrent (step r moved) = Step-IsCurrent moved (Reach-IsCurrent r)
