-- ===== src/Pages/Geo.antt =====
-- dashboard/src/pages/GeoPage.tsx: the load of the geo page with its guard, and its two paged tables.
-- `effect` is the number of the run of the first effect that is not cancelled, and `settled` its variable.
pub mod Paging
use proxy_pool_architect.Base.{
  ℕ, ◌+◌, ◌-◌, ◌*◌, ◌/◌, Bool, true, false, ◌&&◌, Option, none, some, List, if◌then◌else◌, ltb,
  nat_beq, max, min, length, slice,
}
use proxy_pool_architect.Base.Text.{Text, non_empty}
use proxy_pool_architect.Effects.{Exception, Result, ok, err, message_or}
use proxy_pool_architect.Types.Records.{GeoSummary, GeoCountrySummary, GeoAsnSummary}

abbrev pub country_page_size : ℕ
country_page_size = 8

abbrev pub asn_page_size : ℕ
asn_page_size = 10

-- `shown` is the page's `data`.
pub record GeoState : Type 0 where
  pub shown : Option GeoSummary
  pub loading : Bool
  pub error : Option Text
  pub country_page : ℕ
  pub asn_page : ℕ
  pub effect : ℕ
  pub settled : Bool

abbrev pub initial_geo : GeoState
initial_geo = record {
  shown = none;
  loading = true;
  error = none;
  country_page = 1;
  asn_page = 1;
  effect = 0;
  settled = false;
}

-- The first effect up to its request. It cancels the run before, with its guard.
unfoldable pub run_effect : GeoState → GeoState
run_effect s = record s { loading = true; error = none; effect = s.effect + 1; settled = false }

-- `Math.max(1, Math.ceil(n / size))`
abbrev pub pages_for : ℕ → ℕ → ℕ
pages_for n size = max 1 ((n + (size - 1)) / size)

abbrev pub country_pages : GeoSummary → ℕ
country_pages summary = pages_for (length summary.countries) country_page_size

abbrev pub asn_pages : GeoSummary → ℕ
asn_pages summary = pages_for (length summary.asns) asn_page_size

-- The second effect, which runs after each change of the pages or the data.
abbrev pub clamp_page : ℕ → ℕ → ℕ
clamp_page last page = if ltb last page then last else page

abbrev pub clamped : Option GeoSummary → GeoState → GeoState
clamped none s = s
clamped (some summary) s = record s {
  country_page = clamp_page (country_pages summary) s.country_page;
  asn_page = clamp_page (asn_pages summary) s.asn_page;
}

unfoldable pub clamp_pages : GeoState → GeoState
clamp_pages s = clamped s.shown s

-- The answer to run `n`, which does nothing if that is cancelled.
abbrev pub answered : Text → Result GeoSummary → GeoState → GeoState
answered load_error (ok summary) s = record s {
  shown = some summary;
  settled = true;
  loading = false;
}
answered load_error (err e) s = record s {
  error = some (message_or load_error e);
  settled = true;
  loading = false;
}

unfoldable pub end_load : Text → ℕ → Result GeoSummary → GeoState → GeoState
unfolding clamp_pages
end_load load_error n result s =
    if nat_beq n s.effect then clamp_pages (answered load_error result s) else s

-- The guard of run `n` goes off.
unfoldable pub guard : Text → ℕ → GeoState → GeoState
guard load_error n s =
    if nat_beq n s.effect
    then (if s.settled then s else record s { error = some load_error; loading = false })
    else s

pub data View : Type 0 where
  loading_view : View
  error_view : Text → View
  no_data_view : View
  data_view : GeoSummary → View

unfoldable pub view : GeoState → View
view s = if s.loading then loading_view else elim (non_empty s.error) [
  | some message ↦ error_view message
  | none ↦ elim s.shown [ some summary ↦ data_view summary | none ↦ no_data_view ]
]

-- The rows of a page of a table.
abbrev pub page_items {ℓ} : {A : Type ℓ} → ℕ → ℕ → List A → List A
page_items size page items = let offset = (page - 1) * size in slice offset (offset + size) items

unfoldable pub country_items : GeoState → GeoSummary → List GeoCountrySummary
country_items s summary = page_items country_page_size s.country_page summary.countries

unfoldable pub asn_items : GeoState → GeoSummary → List GeoAsnSummary
asn_items s summary = page_items asn_page_size s.asn_page summary.asns

-- The buttons of the tables, which are there with the data, with what disables them.
abbrev pub with_data : (GeoSummary → GeoState → GeoState) → GeoState → GeoState
with_data press s = elim (view s) [
  | loading_view ↦ s
  | error_view message ↦ s
  | no_data_view ↦ s
  | data_view summary ↦ press summary s
]

abbrev pub back_country : GeoSummary → GeoState → GeoState
back_country summary s =
    if ltb 0 (length summary.countries) && ltb 1 s.country_page
    then record s { country_page = max 1 (s.country_page - 1) }
    else s

abbrev pub on_country : GeoSummary → GeoState → GeoState
on_country summary s =
    let total = country_pages summary in
    if ltb 0 (length summary.countries) && ltb s.country_page total
    then record s { country_page = min total (s.country_page + 1) }
    else s

abbrev pub back_asn : GeoSummary → GeoState → GeoState
back_asn summary s =
    if ltb 0 (length summary.asns) && ltb 1 s.asn_page
    then record s { asn_page = max 1 (s.asn_page - 1) }
    else s

abbrev pub on_asn : GeoSummary → GeoState → GeoState
on_asn summary s =
    let total = asn_pages summary in
    if ltb 0 (length summary.asns) && ltb s.asn_page total
    then record s { asn_page = min total (s.asn_page + 1) }
    else s

-- A press and the second effect after it.
unfoldable pub press : (GeoSummary → GeoState → GeoState) → GeoState → GeoState
unfolding clamp_pages view
press button s = clamp_pages (with_data button s)
