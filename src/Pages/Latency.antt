-- ===== src/Pages/Latency.antt =====
-- dashboard/src/components/geo/LatencyAnalysisPanel.tsx: the groups that the geo page compares.
pub mod Order
use proxy_pool_architect.Base.{ℕ, Bool, Option, none, some, List, [], ◌∷◌, ◌++◌, ltb}
use proxy_pool_architect.Base.Text.{Text}
use proxy_pool_architect.Base.Sort.{sort}
use proxy_pool_architect.Types.Records.{GeoCountrySummary, GeoAsnSummary}

pub data Scope : Type 0 where
  country asn : Scope

pub record LatencyGroup : Type 0 where
  pub scope : Scope
  pub name : Text
  pub total : ℕ
  pub elite : ℕ
  pub avg_latency_ms : ℕ

-- The summaries whose latency is known, as groups.
abbrev pub country_groups : List GeoCountrySummary → List LatencyGroup
country_groups [] = []
country_groups (item ∷ items) = elim item.avg_latency_ms [
  | none ↦ country_groups items
  | some latency ↦
      record {
        scope = country;
        name = item.country;
        total = item.total;
        elite = item.elite;
        avg_latency_ms = latency;
      }
      ∷ country_groups items
]

abbrev pub asn_groups : List GeoAsnSummary → List LatencyGroup
asn_groups [] = []
asn_groups (item ∷ items) = elim item.avg_latency_ms [
  | none ↦ asn_groups items
  | some latency ↦
      record {
        scope = asn;
        name = item.asn;
        total = item.total;
        elite = item.elite;
        avg_latency_ms = latency;
      }
      ∷ asn_groups items
]

abbrev pub slower : LatencyGroup → LatencyGroup → Bool
slower left right = ltb right.avg_latency_ms left.avg_latency_ms

unfoldable pub build_latency_groups :
    List GeoCountrySummary → List GeoAsnSummary → List LatencyGroup
build_latency_groups countries asns = sort slower (country_groups countries ++ asn_groups asns)
