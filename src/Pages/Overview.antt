-- ===== src/Pages/Overview.antt =====
-- dashboard/src/pages/OverviewPage.tsx: the overview, which is loaded again every five seconds. `effect`
-- is the number of the effect's run that is not cancelled, and `settled` its `initialSettled`.
pub mod Guard
use proxy_pool_architect.Base.{
  ℕ, ◌+◌, Bool, true, false, Option, none, some, if◌then◌else◌, nat_beq, ◌&&◌, not,
}
use proxy_pool_architect.Base.Text.{Text, non_empty}
use proxy_pool_architect.Effects.{Exception, Result, ok, err, message_or}
use proxy_pool_architect.Types.Records.{OverviewData}

-- A load that is under way: the run of the effect that it belongs to, and whether it is its first.
pub record Load : Type 0 where
  pub run : ℕ
  pub initial : Bool

-- `under_way` is `inFlightRef` with the load that set it, and `has_data` is `hasDataRef`.
pub record OverviewState : Type 0 where
  pub overview : Option OverviewData
  pub error : Option Text
  pub refresh_error : Option Text
  pub loading : Bool
  pub last_updated_at : Option Text
  pub has_data : Bool
  pub under_way : Option Load
  pub effect : ℕ
  pub settled : Bool

abbrev pub initial_overview : OverviewState
initial_overview = record {
  overview = none;
  error = none;
  refresh_error = none;
  loading = true;
  last_updated_at = none;
  has_data = false;
  under_way = none;
  effect = 0;
  settled = false;
}

-- `load(initial)` up to its request; it does nothing while another load is under way.
unfoldable pub begin_load : Bool → OverviewState → OverviewState
begin_load initial s = elim s.under_way [
  | some load ↦ s
  | none ↦
      let started = record s { under_way = some (record { run = s.effect; initial = initial }) } in
      if initial then record started { loading = true; error = none } else started
]

-- The effect runs: the run before is cancelled, with its guard.
unfoldable pub run_effect : OverviewState → OverviewState
unfolding begin_load
run_effect s = begin_load true (record s { effect = s.effect + 1; settled = false })

-- The `try` and `catch` of a load that is not cancelled.
abbrev pub received : Text → Text → Result OverviewData → OverviewState → OverviewState
received now load_error (ok overview) s = record s {
  overview = some overview;
  error = none;
  refresh_error = none;
  last_updated_at = some now;
  has_data = true;
}
received now load_error (err e) s =
    if s.has_data
    then record s { refresh_error = some (message_or load_error e) }
    else record s { error = some (message_or load_error e) }

-- Its `finally`.
abbrev pub finished : Bool → OverviewState → OverviewState
finished initial s =
    if initial
    then record s { settled = true; loading = false; under_way = none }
    else record s { under_way = none }

-- The end of the load under way; a cancelled one only makes room for the next.
abbrev pub end_of : Text → Text → Result OverviewData → Option Load → OverviewState → OverviewState
end_of now load_error result none s = s
end_of now load_error result (some load) s =
    if nat_beq load.run s.effect
    then finished load.initial (received now load_error result s)
    else record s { under_way = none }

unfoldable pub end_load : Text → Text → Result OverviewData → OverviewState → OverviewState
end_load now load_error result s = end_of now load_error result s.under_way s

-- The guard of the effect's run goes off, if it was not cleared.
unfoldable pub guard : Text → OverviewState → OverviewState
guard load_error s = if s.settled then s else record s { error = some load_error; loading = false }

pub data View : Type 0 where
  loading_view : View
  error_view : Text → View
  no_data_view : View
  data_view : OverviewData → View

unfoldable pub view : OverviewState → View
view s = if s.loading then loading_view else elim (non_empty s.error) [
  | some message ↦ error_view message
  | none ↦ elim s.overview [ some overview ↦ data_view overview | none ↦ no_data_view ]
]
