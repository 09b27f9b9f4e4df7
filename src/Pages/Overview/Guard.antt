-- ===== src/Pages/Overview/Guard.antt =====
-- dashboard/src/pages/OverviewPage.tsx: when the page has nothing to show, and what its guard does.
use proxy_pool_architect.Base.{
  ◌+◌, ◌≡◌, refl, Bool, true, false, Option, none, some, [], ◌∷◌, is_some, ◌⊎◌, inl, inr,
  Bool-cases, Option-cases, nat_beq, arith,
}
use proxy_pool_architect.Base.Text.{Text, truthy}
use proxy_pool_architect.Effects.{Result, ok, err}
use proxy_pool_architect.Types.Records.{OverviewData}
use proxy_pool_architect.Pages.Overview.{
  Load, OverviewState, initial_overview, begin_load, run_effect, received, finished, end_of,
  end_load, guard, no_data_view, error_view, view,
}

pub data Step (s s' : OverviewState) : Type 0 where
  language_changed : s' ≡ run_effect s → Step s s'
  timer_ticked : s' ≡ begin_load false s → Step s s'
  load_ended :
      (now load_error : Text) (result : Result OverviewData)
      → s' ≡ end_load now load_error result s
      → Step s s'
  guard_went_off : (load_error : Text) → s' ≡ guard load_error s → Step s s'

pub data Reach : OverviewState → Type 0 where
  start : Reach (run_effect initial_overview)
  next : {s s' : OverviewState} → Reach s → Step s s' → Reach s'

-- `hasDataRef` tells whether there is data, and the page loads, has an error or has data.
abbrev HasOutcome : OverviewState → Type 0
HasOutcome s =
    (s.has_data ≡ is_some s.overview)
    × ((s.loading ≡ true) ⊎ ((is_some s.error ≡ true) ⊎ (is_some s.overview ≡ true)))

begin_load-HasOutcome :
    (initial : Bool) (s : OverviewState) → HasOutcome s → HasOutcome (begin_load initial s)
unfolding begin_load
begin_load-HasOutcome initial s h = elim (Option-cases s.under_way) [
  | inr (load, busy) ↦ rw busy h
  | inl free ↦ elim (Bool-cases initial) [
    | inl first ↦ rw (free, first) (h.0, inl refl)
    | inr later ↦ rw (free, later) h
  ]
]

-- What is there once a load has been received.
abbrev HasResult : OverviewState → Type 0
HasResult s =
    (s.has_data ≡ is_some s.overview) × ((is_some s.error ≡ true) ⊎ (is_some s.overview ≡ true))

received-HasResult :
    (now load_error : Text) (result : Result OverviewData) (s : OverviewState)
    → s.has_data ≡ is_some s.overview
    → HasResult (received now load_error result s)
received-HasResult now text (ok overview) s h = (refl, inr refl)
received-HasResult now text (err e) s h = elim (Bool-cases s.has_data) [
  | inl old ↦ rw old (rw old at h, inr (ground arith))
  | inr new ↦ rw new (rw new at h, inl refl)
]

finished-HasOutcome :
    (initial : Bool) (s : OverviewState) → HasResult s → HasOutcome (finished initial s)
finished-HasOutcome true s h = (h.0, inr h.1)
finished-HasOutcome false s h = (h.0, inr h.1)

end_of-HasOutcome :
    (now load_error : Text) (result : Result OverviewData) (under_way : Option Load)
    (s : OverviewState)
    → HasOutcome s
    → HasOutcome (end_of now load_error result under_way s)
end_of-HasOutcome now text result none s h = h
end_of-HasOutcome now text result (some load) s h = elim (Bool-cases (nat_beq load.run s.effect)) [
  | inl current ↦ rw current (
      finished-HasOutcome load.initial (received now text result s)
        (received-HasResult now text result s h.0))
  | inr cancelled ↦ rw cancelled h
]

guard-HasOutcome :
    (load_error : Text) (s : OverviewState) → HasOutcome s → HasOutcome (guard load_error s)
unfolding guard
guard-HasOutcome text s h = elim (Bool-cases s.settled) [
  | inl done ↦ rw done h
  | inr open_still ↦ rw open_still (h.0, inr (inl refl))
]

Step-HasOutcome : {s s' : OverviewState} → Step s s' → HasOutcome s → HasOutcome s'
unfolding run_effect end_load
Step-HasOutcome {s} (language_changed e) h =
    rw e (begin_load-HasOutcome true (record s { effect = s.effect + 1; settled = false }) h)
Step-HasOutcome {s} (timer_ticked e) h = rw e (begin_load-HasOutcome false s h)
Step-HasOutcome {s} (load_ended now text result e) h =
    rw e (end_of-HasOutcome now text result s.under_way s h)
Step-HasOutcome {s} (guard_went_off text e) h = rw e (guard-HasOutcome text s h)

Reach-HasOutcome : {s : OverviewState} → Reach s → HasOutcome s
unfolding run_effect begin_load
Reach-HasOutcome start = (refl, inl refl)
Reach-HasOutcome (next r step) = Step-HasOutcome step (Reach-HasOutcome r)

empty_message :
    (s : OverviewState) (message : Text)
    → s.loading ≡ false
    → s.error ≡ some message
    → view s ≡ no_data_view
    → s.error ≡ some []
unfolding view
empty_message s [] idle failed shown = failed
empty_message s (c ∷ message) idle failed shown = let bad = rw (idle, failed) at shown in cc

-- In every state that the overview page reaches by changes of the language, ticks of its timer, ends of loads and
-- its guard, it shows that there is no data only if an error with an empty message has occurred.
pub Reach_no_data : {s : OverviewState} → Reach s → view s ≡ no_data_view → s.error ≡ some []
unfolding view
Reach_no_data {s} reached shown = elim (Bool-cases s.loading) [
  | inl loading ↦ let bad = rw loading at shown in cc
  | inr idle ↦ elim (Option-cases s.error) [
    | inr (message, failed) ↦ empty_message s message idle failed shown
    | inl fine ↦ elim (Option-cases s.overview) [
      | inr (overview, there) ↦ let bad = rw (idle, fine, there) at shown in cc
      | inl missing ↦ let outcome = (Reach-HasOutcome reached).1 in absurd (ground arith)
    ]
  ]
]

-- A change of the language while a load is under way leads to an error after the guard's time, although
-- the load has brought its result and the data from before is still there: the load of the run that
-- ends is cancelled, that of the new run is not begun, and so nothing clears the new run's guard.
pub guard-run_effect :
    (s : OverviewState) (load : Load) (now load_error : Text) (result : Result OverviewData)
    → s.under_way ≡ some load
    → load.run ≡ s.effect
    → truthy load_error ≡ true
    → let s' = guard load_error (end_load now load_error result (run_effect s)) in
      (view s' ≡ error_view load_error) × (s'.overview ≡ s.overview) × (s'.under_way ≡ none)
unfolding guard end_load run_effect begin_load view
guard-run_effect s load now load_error result busy current some_text =
    let other : nat_beq load.run (s.effect + 1) ≡ false = ground arith in
    simp (busy, other, some_text) (refl, refl, refl)
