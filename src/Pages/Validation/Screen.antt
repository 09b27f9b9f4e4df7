-- ===== src/Pages/Validation/Screen.antt =====
-- dashboard/src/pages/ValidationPage.tsx: the page's load of three answers at once, its pages, and what it
-- shows. `effect` is the number of the effect's run that is not cancelled.
use proxy_pool_architect.Base.{
  ℕ, ◌+◌, ◌-◌, ◌/◌, Bool, true, false, not, ◌&&◌, Option, none, some, List, [], if◌then◌else◌, ltb,
  nat_beq, max, min, length, sum_by, take,
}
use proxy_pool_architect.Base.Text.{Text, non_empty}
use proxy_pool_architect.Effects.{Result, ok, err, message_or}
use proxy_pool_architect.Types.Records.{
  EventLogEntry, OverviewData, PaginatedResponse, ValidationJob, Ratio,
}
use proxy_pool_architect.Pages.Validation.{ErrorType, count_error_types}

abbrev pub job_page_size : ℕ
job_page_size = 10

abbrev pub event_sample_size : ℕ
event_sample_size = 50

pub record ValidationState : Type 0 where
  pub jobs : Option (PaginatedResponse ValidationJob)
  pub overview : Option OverviewData
  pub events : List EventLogEntry
  pub loading : Bool
  pub error : Option Text
  pub page : ℕ
  pub effect : ℕ

abbrev pub initial_validation : ValidationState
initial_validation = record {
  jobs = none;
  overview = none;
  events = [];
  loading = true;
  error = none;
  page = 1;
  effect = 0;
}

-- What `Promise.all` resolves with; it rejects with the first rejection.
pub record Answers : Type 0 where
  pub validation_jobs : PaginatedResponse ValidationJob
  pub next_overview : OverviewData
  pub next_events : PaginatedResponse EventLogEntry

unfoldable pub run_effect : ValidationState → ValidationState
run_effect s = record s { loading = true; error = none; effect = s.effect + 1 }

abbrev pub is_empty_page : PaginatedResponse ValidationJob → ℕ → Bool
is_empty_page jobs page = not (ltb 0 (length jobs.items)) && (ltb 0 jobs.total && ltb 1 page)

abbrev pub set_page : ℕ → ValidationState → ValidationState
set_page page s = if nat_beq page s.page then s else run_effect (record s { page = page })

abbrev pub loaded : Text → Result Answers → ValidationState → ValidationState
loaded load_error (err e) s = record s { error = some (message_or load_error e); loading = false }
loaded load_error (ok answers) s =
    if is_empty_page answers.validation_jobs s.page
    then set_page (max 1 (s.page - 1)) (record s { loading = false })
    else record s {
      jobs = some answers.validation_jobs;
      overview = some answers.next_overview;
      events = answers.next_events.items;
      loading = false;
    }

-- The answer to run `n`, which does nothing if that is cancelled.
unfoldable pub end_load : Text → ℕ → Result Answers → ValidationState → ValidationState
unfolding run_effect
end_load load_error n result s = if nat_beq n s.effect then loaded load_error result s else s

-- `totalChecked > 0 ? total / totalChecked : null`
unfoldable pub rate_of : (ValidationJob → ℕ) → List ValidationJob → Option Ratio
rate_of count jobs =
    let checked = sum_by (λ job. job.checked_count) jobs in
    if ltb 0 checked then some (record { num = sum_by count jobs; den = checked }) else none

-- The rate of a row of the table.
unfoldable pub success_rate : ValidationJob → Option Ratio
success_rate job =
    if ltb 0 job.checked_count
    then some (record { num = job.success_count; den = job.checked_count })
    else none

pub record Shown : Type 0 where
  pub jobs : PaginatedResponse ValidationJob
  pub overview : OverviewData
  pub success : Option Ratio
  pub timeout : Option Ratio
  pub total_timeout : ℕ
  pub error_types : List ErrorType
  pub total_pages : ℕ

unfoldable pub shown_for :
    PaginatedResponse ValidationJob → OverviewData → List EventLogEntry → Shown
unfolding rate_of count_error_types
shown_for jobs overview events = record {
  jobs = jobs;
  overview = overview;
  success = rate_of (λ job. job.success_count) jobs.items;
  timeout = rate_of (λ job. job.timeout_count) jobs.items;
  total_timeout = sum_by (λ job. job.timeout_count) jobs.items;
  error_types = take 5 (count_error_types events);
  total_pages = max 1 ((jobs.total + 9) / job_page_size);
}

pub data View : Type 0 where
  loading_view : View
  error_view : Text → View
  empty_view : View
  shown_view : Shown → View

abbrev pub shown_if :
    Option (PaginatedResponse ValidationJob) → Option OverviewData → List EventLogEntry → View
shown_if none overview events = empty_view
shown_if (some jobs) none events = empty_view
shown_if (some jobs) (some overview) events =
    if ltb 0 (length jobs.items) then shown_view (shown_for jobs overview events) else empty_view

unfoldable pub view : ValidationState → View
unfolding shown_for
view s = if s.loading then loading_view else elim (non_empty s.error) [
  | some message ↦ error_view message
  | none ↦ shown_if s.jobs s.overview s.events
]

-- The buttons, which are there in `shown_view`.
abbrev pub turn_back : View → ValidationState → ValidationState
turn_back (shown_view shown) s = if ltb 1 s.page then set_page (max 1 (s.page - 1)) s else s
turn_back _ s = s

abbrev pub turn_on : View → ValidationState → ValidationState
turn_on (shown_view shown) s =
    if ltb s.page shown.total_pages then set_page (min shown.total_pages (s.page + 1)) s else s
turn_on _ s = s

unfoldable pub previous : ValidationState → ValidationState
unfolding view run_effect
previous s = turn_back (view s) s

unfoldable pub next : ValidationState → ValidationState
unfolding view run_effect
next s = turn_on (view s) s
