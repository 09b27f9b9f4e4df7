-- ===== src/Pages/Geo/Paging.antt =====
-- dashboard/src/pages/GeoPage.tsx: the pages of its tables, and an answer that comes after the guard.
use proxy_pool_architect.Base.{
  ℕ, ◌-◌, ◌*◌, ◌≤◌, ◌<◌, Bool, true, false, ◌≡◌, refl, Option, none, some, arith, nat_beq, length,
  length-slice, if◌then◌else◌, inl, inr, ◌⊎◌, zero, suc,
}
use proxy_pool_architect.Base.Text.{Text, non_empty, truthy}
use proxy_pool_architect.Effects.{Result, ok, err}
use proxy_pool_architect.Types.Records.{GeoSummary}
use proxy_pool_architect.Pages.Geo.{
  GeoState, initial_geo, run_effect, country_pages, asn_pages, clamp_page, clamped, clamp_pages,
  answered, end_load, guard, View, loading_view, error_view, no_data_view, data_view, view,
  country_items, asn_items, with_data, back_country, on_country, back_asn, on_asn, press,
}

pub data Button : (GeoSummary → GeoState → GeoState) → Type 0 where
  country_back : Button back_country
  country_on : Button on_country
  asn_back : Button back_asn
  asn_on : Button on_asn

-- What happens to the page. Nothing is asked of the numbers of runs, so answers and guards of cancelled
-- runs come at any time.
pub data Step (s s' : GeoState) : Type 0 where
  language_changed : s' ≡ run_effect s → Step s s'
  responded :
      (load_error : Text) (n : ℕ) (result : Result GeoSummary)
      → s' ≡ end_load load_error n result s
      → Step s s'
  guarded : (load_error : Text) (n : ℕ) → s' ≡ guard load_error n s → Step s s'
  pressed :
      (button : GeoSummary → GeoState → GeoState) → Button button → s' ≡ press button s → Step s s'

pub data Reach : GeoState → Type 0 where
  start : Reach (run_effect initial_geo)
  step : {s s' : GeoState} → Reach s → Step s s' → Reach s'

abbrev IsPositive : GeoState → Type 0
IsPositive s = (1 ≤ s.country_page) × (1 ≤ s.asn_page)

abbrev Within : Option GeoSummary → (country_page asn_page : ℕ) → Type 0
Within none c a = Unit
Within (some summary) c a = (c ≤ country_pages summary) × (a ≤ asn_pages summary)

abbrev InRange : GeoState → Type 0
InRange s = IsPositive s × Within s.shown s.country_page s.asn_page

clamp_page-range :
    (last page : ℕ)
    → 1 ≤ last
    → 1 ≤ page
    → (1 ≤ clamp_page last page) × (clamp_page last page ≤ last)
clamp_page-range last page h k = ground arith

clamp_pages-InRange : (s : GeoState) → IsPositive s → InRange (clamp_pages s)
unfolding clamp_pages
clamp_pages-InRange s positive = of_shown s.shown s refl positive
  where
    of_shown :
        (shown : Option GeoSummary) (s : GeoState)
        → s.shown ≡ shown
        → IsPositive s
        → InRange (clamped shown s)
    of_shown none s e h = (h, rw e tt)
    of_shown (some summary) s e h =
        let c = clamp_page-range (country_pages summary) s.country_page (omega arith) h.0 in
        let a = clamp_page-range (asn_pages summary) s.asn_page (omega arith) h.1 in
        ((c.0, a.0), rw e (c.1, a.1))

answered-IsPositive :
    (text : Text) (result : Result GeoSummary) (s : GeoState)
    → IsPositive s
    → IsPositive (answered text result s)
answered-IsPositive text (ok summary) s h = h
answered-IsPositive text (err e) s h = h

if-IsPositive :
    (b : Bool) (s s' : GeoState) → IsPositive s → IsPositive s' → IsPositive (if b then s else s')
if-IsPositive true s s' h k = h
if-IsPositive false s s' h k = k

if-InRange : (b : Bool) (s s' : GeoState) → InRange s → InRange s' → InRange (if b then s else s')
if-InRange true s s' h k = h
if-InRange false s s' h k = k

Button-IsPositive :
    {button : GeoSummary → GeoState → GeoState}
    → Button button
    → (summary : GeoSummary) (s : GeoState) → IsPositive s
    → IsPositive (button summary s)
Button-IsPositive country_back summary s h = if-IsPositive _ _ s (omega arith, h.1) h
Button-IsPositive country_on summary s h = if-IsPositive _ _ s (omega arith, h.1) h
Button-IsPositive asn_back summary s h = if-IsPositive _ _ s (h.0, omega arith) h
Button-IsPositive asn_on summary s h = if-IsPositive _ _ s (h.0, omega arith) h

with_data-IsPositive :
    {button : GeoSummary → GeoState → GeoState}
    → Button button
    → (s : GeoState) → IsPositive s
    → IsPositive (with_data button s)
with_data-IsPositive {button} b s h = of_view (view s)
  where
    of_view :
        (v : View)
        → IsPositive (elim v [
          | loading_view ↦ s
          | error_view message ↦ s
          | no_data_view ↦ s
          | data_view summary ↦ button summary s
        ])
    of_view loading_view = h
    of_view (error_view message) = h
    of_view no_data_view = h
    of_view (data_view summary) = Button-IsPositive b summary s h

Step-InRange : {s s' : GeoState} → Step s s' → InRange s → InRange s'
unfolding run_effect end_load guard press
Step-InRange {s} (language_changed e) h = rw e h
Step-InRange {s} (responded text n result e) h = rw e (
    if-InRange (nat_beq n s.effect) _ s
      (clamp_pages-InRange (answered text result s) (answered-IsPositive text result s h.0)) h)
Step-InRange {s} (guarded text n e) h =
    rw e (if-InRange (nat_beq n s.effect) _ s (if-InRange s.settled s _ h h) h)
Step-InRange {s} (pressed button b e) h =
    rw e (clamp_pages-InRange (with_data button s) (with_data-IsPositive b s h.0))

Reach-InRange : {s : GeoState} → Reach s → InRange s
unfolding run_effect
Reach-InRange start = (omega arith, tt)
Reach-InRange (step r moved) = Step-InRange moved (Reach-InRange r)

view-data :
    (s : GeoState) (summary : GeoSummary) → view s ≡ data_view summary → s.shown ≡ some summary
unfolding view
view-data s summary h = of_parts s.loading (non_empty s.error) s.shown h
  where
    of_parts :
        (loading : Bool) (error : Option Text) (shown : Option GeoSummary)
        → (if loading then loading_view else elim error [
          | some message ↦ error_view message
          | none ↦ elim shown [ some summary ↦ data_view summary | none ↦ no_data_view ]
        ])
          ≡ data_view summary
        → shown ≡ some summary
    of_parts true error shown h = cc
    of_parts false (some message) shown h = cc
    of_parts false none none h = cc
    of_parts false none (some other) h = cc

-- In every state that the geo page reaches and in which it shows data, each of its two tables has a row
-- if the data has one: the page number of the table is never past the last page, also after data with
-- fewer rows has come.
pub Reach_has_rows :
    {s : GeoState} {summary : GeoSummary}
    → Reach s
    → view s ≡ data_view summary
    → ((length summary.countries ≡ 0) ⊎ (0 < length (country_items s summary)))
      × ((length summary.asns ≡ 0) ⊎ (0 < length (asn_items s summary)))
unfolding country_items asn_items
Reach_has_rows {s} {summary} r h =
    let range = Reach-InRange r in
    let within : Within (some summary) s.country_page s.asn_page =
      rw (view-data s summary h) at range.1 in
    (
      rows (length summary.countries) _ (λ some_rows.
          omega (
            arith,
            length-slice ((s.country_page - 1) * 8) 8 summary.countries,
            range.0,
            within.0,
          )),
      rows (length summary.asns) _ (λ some_rows.
          omega (arith, length-slice ((s.asn_page - 1) * 10) 10 summary.asns, range.0, within.1)),
    )
  where
    rows : (total shown : ℕ) → (0 < total → 0 < shown) → (total ≡ 0) ⊎ (0 < shown)
    rows zero shown h = inl refl
    rows (suc total) shown h = inr (h (omega arith))

-- If the answer to a load comes after its guard has gone off, the page has the data and goes on to show
-- the guard's error, unless its text is empty: nothing takes the error back.
pub late_answer :
    (load_error : Text) (summary : GeoSummary) (s : GeoState)
    → s.settled ≡ false
    → truthy load_error ≡ true
    → let s' = end_load load_error s.effect (ok summary) (guard load_error s.effect s) in
      (s'.shown ≡ some summary) × (view s' ≡ error_view load_error)
unfolding end_load guard view clamp_pages
late_answer load_error summary s unsettled told =
    let current : nat_beq s.effect s.effect ≡ true = ground arith in
    rw (current, unsettled) (rw current (refl, rw told refl))
