-- ===== src/Pages/Logs/Settling.antt =====
-- dashboard/src/pages/LogsPage.tsx: where the steps back from empty pages end, if the log stays as it is.
use proxy_pool_architect.Base.{
  ℕ, zero, suc, ◌-◌, ◌≤◌, ◌<◌, ◌≡◌, refl, true, false, some, List, [], ◌∷◌, Bool-cases, inl, inr,
  arith, max, min, length, length-slice, nat_beq_iff, if◌then◌else◌,
}
use proxy_pool_architect.Base.Text.{Text}
use proxy_pool_architect.Effects.{ok}
use proxy_pool_architect.Types.Records.{EventLogEntry, PaginatedResponse}
use proxy_pool_architect.MockStore.{paginate_items}
use proxy_pool_architect.Pages.Logs.{
  LogsState, page_size, run_effect, offset_of, is_empty, steps_back, end_load, respond, total_pages,
}

-- The page that the service gives of a log.
abbrev pub page_at : List EventLogEntry → ℕ → PaginatedResponse EventLogEntry
page_at log page = paginate_items log page_size (offset_of page)

-- The service answers the loads of the page one after the other, until no load is under way.
unfoldable pub settle : Text → List EventLogEntry → (fuel : ℕ) → LogsState → LogsState
unfolding respond
settle load_error log zero s = s
settle load_error log (suc fuel) s =
    let rest =
      settle load_error log fuel (respond load_error s.effect (ok (page_at log s.page)) s) in
    if s.loading then rest else s

is_empty-length : (items : List EventLogEntry) → is_empty items ≡ true → length items ≡ 0
is_empty-length [] h = refl
is_empty-length (item ∷ items) h = cc

length-is_empty : (items : List EventLogEntry) → is_empty items ≡ false → 0 < length items
length-is_empty [] h = cc
length-is_empty (item ∷ items) h = omega arith

-- The loads have ended at the last page that is not empty, or at the page itself if it comes before.
abbrev pub IsSettled : List EventLogEntry → ℕ → LogsState → Type 0
IsSettled log page s =
    (s.loading ≡ false)
    × (s.page ≡ min page (total_pages (length log)))
    × (s.shown ≡ some (page_at log s.page))

module _ (load_error : Text) (log : List EventLogEntry) where
  -- What the load of the page does.
  loaded : LogsState → LogsState
  unfolding end_load
  loaded s = end_load load_error (ok (page_at log s.page)) s

  settle-loading :
      (fuel : ℕ) (s : LogsState)
      → s.loading ≡ true
      → settle load_error log (suc fuel) s ≡ settle load_error log fuel (loaded s)
  unfolding settle loaded
  settle-loading fuel s loading = rw (loading, (nat_beq_iff s.effect s.effect).1 refl) refl

  settle-idle : (fuel : ℕ) (s : LogsState) → s.loading ≡ false → settle load_error log fuel s ≡ s
  unfolding settle
  settle-idle zero s idle = refl
  settle-idle (suc fuel) s idle = rw idle refl

  items_length :
      (page : ℕ) → length (page_at log page).items ≡ min page_size (length log - offset_of page)
  unfolding paginate_items
  items_length page = length-slice (offset_of page) page_size log

  -- A page that is passed over lies behind the last one.
  behind :
      (page : ℕ)
      → steps_back (page_at log page) page ≡ true
      → (1 < page) × (total_pages (length log) ≤ page - 1)
  unfolding total_pages paginate_items
  behind page back = ground (arith, items_length page, is_empty-length (page_at log page).items)

  within :
      (page : ℕ)
      → 1 ≤ page
      → 0 < length log
      → steps_back (page_at log page) page ≡ false
      → page ≤ total_pages (length log)
  unfolding total_pages paginate_items
  within page pos some_log stays =
      ground (arith, items_length page, length-is_empty (page_at log page).items)

  loaded_back :
      (s : LogsState)
      → steps_back (page_at log s.page) s.page ≡ true
      → ((loaded s).loading ≡ true) × ((loaded s).page ≡ max 1 (s.page - 1))
  unfolding loaded run_effect
  loaded_back s back = rw back (refl, refl)

  loaded_here :
      (s : LogsState)
      → steps_back (page_at log s.page) s.page ≡ false
      → loaded s ≡ record s { shown = some (page_at log s.page); loading = false }
  unfolding loaded
  loaded_here s stays = rw stays refl

-- If a log that is not empty stays as it is and the service answers each load, then after at most as
-- many loads as the page's number the page has ended loading: it shows the page that was asked for, or
-- the last one if that comes before.
pub settle-IsSettled :
    (load_error : Text) (log : List EventLogEntry) (fuel : ℕ) (s : LogsState)
    → 0 < length log
    → 1 ≤ s.page
    → s.page ≤ fuel
    → s.loading ≡ true
    → IsSettled log s.page (settle load_error log fuel s)
settle-IsSettled load_error log zero s some_log pos enough loading = absurd (omega arith)
settle-IsSettled load_error log (suc fuel) s some_log pos enough loading =
    rw (settle-loading load_error log fuel s loading)
      (elim (Bool-cases (steps_back (page_at log s.page) s.page)) [
        | inl back ↦
            let (far, last) = behind load_error log s.page back in
            let (again, moved) = loaded_back load_error log s back in
            let settled =
              settle-IsSettled load_error log fuel (loaded load_error log s) some_log (omega arith)
                (omega arith) again in
            (settled.0, omega arith, settled.2)
        | inr stays ↦
            let here = loaded_here load_error log s stays in
            let last = within load_error log s.page pos some_log stays in
            rw (settle-idle load_error log fuel (loaded load_error log s) (rw here refl), here)
              (refl, omega arith, refl)
      ])
