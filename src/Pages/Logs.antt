-- ===== src/Pages/Logs.antt =====
-- dashboard/src/pages/LogsPage.tsx: the page of the event log. Each run of the page's effect has a number;
-- `effect` is that of the run whose load is not cancelled. A change of the page or of the language
-- runs the effect again, which cancels the load before.
pub mod Fresh
pub mod Settling
use proxy_pool_architect.Base.{
  ℕ, ◌+◌, ◌-◌, ◌*◌, ◌/◌, Bool, true, false, ◌&&◌, Option, none, some, [], ◌∷◌, if◌then◌else◌, ltb,
  leb, nat_beq, max, min, length, List,
}
use proxy_pool_architect.Base.Text.{Text, codes}
use proxy_pool_architect.Effects.{Exception, Result, ok, err, message_or}
use proxy_pool_architect.Types.Records.{EventLogEntry, PaginatedResponse}
use proxy_pool_architect.Format.{format_number}
use proxy_pool_architect.I18n.{Language, translate, TranslationValue, text}

abbrev pub page_size : ℕ
page_size = 20

-- `Math.max(1, Math.ceil(total / PAGE_SIZE))`
unfoldable pub total_pages : ℕ → ℕ
total_pages total = max 1 ((total + 19) / 20)

unfoldable pub build_list_message : Language → Option (PaginatedResponse EventLogEntry) → Text
unfolding translate format_number
build_list_message language none = translate language (codes "logs.emptyMessage") none
build_list_message language (some response) =
    if nat_beq response.total 0
    then translate language (codes "logs.emptyMessage") none
    else translate language (codes "common.listRange") (
        some (
          (codes "start", text (format_number (response.offset + 1)))
          ∷ (codes "end", text (format_number (response.offset + length response.items)))
          ∷ (codes "total", text (format_number response.total))
          ∷ []))

-- `shown` is the page's `data`.
pub record LogsState : Type 0 where
  pub shown : Option (PaginatedResponse EventLogEntry)
  pub loading : Bool
  pub error : Option Text
  pub page : ℕ
  pub effect : ℕ

-- The state before the effect first runs.
abbrev pub initial_logs : LogsState
initial_logs = record { shown = none; loading = true; error = none; page = 1; effect = 0 }

-- The effect, up to the request for `page`.
unfoldable pub run_effect : LogsState → LogsState
run_effect s = record s { loading = true; error = none; effect = s.effect + 1 }

-- `(page - 1) * PAGE_SIZE`
abbrev pub offset_of : ℕ → ℕ
offset_of page = (page - 1) * page_size

abbrev pub is_empty : List EventLogEntry → Bool
is_empty [] = true
is_empty (item ∷ items) = false

-- The page has run empty while others have not.
abbrev pub steps_back : PaginatedResponse EventLogEntry → ℕ → Bool
steps_back events page = is_empty events.items && ltb 0 events.total && ltb 1 page

-- The end of the load that is not cancelled. A step back is a new page, so the effect runs again.
unfoldable pub end_load : Text → Result (PaginatedResponse EventLogEntry) → LogsState → LogsState
unfolding run_effect
end_load load_error (ok events) s =
    if steps_back events s.page
    then run_effect (record s { page = max 1 (s.page - 1); loading = false })
    else record s { shown = some events; loading = false }
end_load load_error (err e) s = record s { error = some (message_or load_error e); loading = false }

-- The end of the load of run `n`, which does nothing if it is cancelled.
unfoldable pub respond : Text → ℕ → Result (PaginatedResponse EventLogEntry) → LogsState → LogsState
unfolding end_load
respond load_error n result s = if nat_beq n s.effect then end_load load_error result s else s

-- The buttons are there and can be pressed.
abbrev pub shows_list : LogsState → Bool
shows_list s = if s.loading then false else elim s.error [
  | some message ↦ false
  | none ↦ elim s.shown [
    | none ↦ false
    | some events ↦ if is_empty events.items then false else true
  ]
]

abbrev pub pages_of : Option (PaginatedResponse EventLogEntry) → ℕ
pages_of none = 1
pages_of (some events) = total_pages events.total

-- The setters of the buttons, which run the effect when they change the page.
abbrev pub go_to : ℕ → LogsState → LogsState
go_to page s = if nat_beq page s.page then s else run_effect (record s { page = page })

unfoldable pub previous : LogsState → LogsState
unfolding run_effect
previous s = if shows_list s && ltb 1 s.page then go_to (max 1 (s.page - 1)) s else s

unfoldable pub next : LogsState → LogsState
unfolding run_effect
next s =
    if shows_list s && ltb s.page (pages_of s.shown)
    then go_to (min (pages_of s.shown) (s.page + 1)) s
    else s
