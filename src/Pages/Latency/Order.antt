-- ===== src/Pages/Latency/Order.antt =====
-- dashboard/src/components/geo/LatencyAnalysisPanel.tsx: which groups are listed, and in which order.
use mathlib.Core.List.{Perm}
use proxy_pool_architect.Base.{
  ◌+◌, ◌≤◌, ◌≡◌, refl, List, [], ◌∷◌, ◌++◌, filter, length, length-append, All-intro, AllPairs,
  arith, is_some,
}
use proxy_pool_architect.Base.Sort.{IsPreorder, sort-AllPairs, sort-length, sort-perm}
use proxy_pool_architect.Types.Records.{GeoCountrySummary, GeoAsnSummary}
use proxy_pool_architect.Pages.Latency.{country_groups, asn_groups, slower, build_latency_groups}

slower-IsPreorder : IsPreorder slower (λ _. Unit {0})
slower-IsPreorder = record {
  total = λ x y _ _ h. ground arith;
  trans = λ x y z _ _ _ h k. ground arith;
}

length-country_groups :
    (items : List GeoCountrySummary)
    → length (country_groups items) ≡ length (filter (λ item. is_some item.avg_latency_ms) items)
length-country_groups [] = refl
length-country_groups (item ∷ items) = ground (arith, length-country_groups items)

length-asn_groups :
    (items : List GeoAsnSummary)
    → length (asn_groups items) ≡ length (filter (λ item. is_some item.avg_latency_ms) items)
length-asn_groups [] = refl
length-asn_groups (item ∷ items) = ground (arith, length-asn_groups items)

-- The latency groups are those of the countries and ASNs whose latency is known, as many as there are, with the
-- faster ones first.
pub build_latency_groups_lem :
    (countries : List GeoCountrySummary) (asns : List GeoAsnSummary)
    → Perm (build_latency_groups countries asns) (country_groups countries ++ asn_groups asns)
      × (length (build_latency_groups countries asns)
          ≡ length (filter (λ item. is_some item.avg_latency_ms) countries)
            + length (filter (λ item. is_some item.avg_latency_ms) asns))
      × AllPairs (λ a b. a.avg_latency_ms ≤ b.avg_latency_ms) (build_latency_groups countries asns)
unfolding build_latency_groups
build_latency_groups_lem countries asns = (
  sort-perm slower _,
  omega (
    arith,
    sort-length slower (country_groups countries ++ asn_groups asns),
    length-append (country_groups countries) (asn_groups asns),
    length-country_groups countries,
    length-asn_groups asns,
  ),
  sort-AllPairs slower (λ _. Unit) _ slower-IsPreorder (λ a b _ _ h. ground arith) _
      (All-intro _ (λ _. tt)),
)
