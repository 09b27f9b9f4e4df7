-- ===== src/Derive.antt =====
-- dashboard/src/lib/dashboard-derive.ts: the geo and provider summaries that the dashboard computes
-- from a list of proxies.
pub mod Latency
pub mod Grouping
pub mod Geo
pub mod Providers
use proxy_pool_architect.Base.{
  ℕ, zero, suc, ◌+◌, ◌-◌, Bool, true, false, ◌&&◌, ◌||◌, Option, none, some, List, [], ◌∷◌, map,
  filter, length, sum_by, ltb, if◌then◌else◌, ◌==◌, nat_eq, is_some, or_option, head?, last?,
}
use proxy_pool_architect.Base.Text.{Text, codes, non_empty}
use proxy_pool_architect.Base.Sort.{sort}
use proxy_pool_architect.Base.Group.{push_if}
use proxy_pool_architect.Base.Round.{round_div}
use proxy_pool_architect.Types.Unions.{ProxyPool, checked, pool_eq}
use proxy_pool_architect.Types.Records.{
  ProxyEndpoint, GeoCountrySummary, GeoAsnSummary, GeoCoverageSummary, GeoSummary, ProviderSummary,
}
use proxy_pool_architect.ProxyList.{text_after}

-- The numbers among the values, and the texts that are not empty.
abbrev pub known : List (Option ℕ) → List ℕ
known [] = []
known (none ∷ vs) = known vs
known (some v ∷ vs) = v ∷ known vs

abbrev pub known_texts : List (Option Text) → List Text
known_texts [] = []
known_texts (t ∷ ts) = elim (non_empty t) [ none ↦ known_texts ts | some s ↦ s ∷ known_texts ts ]

unfoldable pub average_latency : List (Option ℕ) → Option ℕ
unfolding round_div
average_latency values =
    let latencies = known values in
    if length latencies == 0
    then none
    else some (round_div (sum_by (λ v. v) latencies) (length latencies))

-- The variables that the loop over the proxies writes.
pub record GeoBuckets : Type 0 where
  pub country_buckets : List (Text × List ProxyEndpoint)
  pub asn_buckets : List (Text × List ProxyEndpoint)
  pub geo_tagged_proxies : ℕ

abbrev pub is_tagged : ProxyEndpoint → Bool
is_tagged item = is_some (non_empty item.country) || is_some (non_empty item.asn)

-- The body of that loop.
abbrev pub note_item : GeoBuckets → ProxyEndpoint → GeoBuckets
note_item b item = record {
  country_buckets = push_if (non_empty item.country) item b.country_buckets;
  asn_buckets = push_if (non_empty item.asn) item b.asn_buckets;
  geo_tagged_proxies = if is_tagged item then b.geo_tagged_proxies + 1 else b.geo_tagged_proxies;
}

pub note_items : GeoBuckets → List ProxyEndpoint → GeoBuckets
note_items b [] = b
note_items b (item ∷ items) = note_items (note_item b item) items

abbrev pub elite_in : List ProxyEndpoint → ℕ
elite_in bucket = length (filter (λ item. item.status == ProxyPool.elite) bucket)

pub country_summary : Text → List ProxyEndpoint → GeoCountrySummary
unfolding average_latency
country_summary country bucket = record {
  country = country;
  total = length bucket;
  elite = elite_in bucket;
  avg_latency_ms = average_latency (map (λ item. item.latency_ms) bucket);
}

pub asn_summary : Text → List ProxyEndpoint → GeoAsnSummary
unfolding average_latency
asn_summary asn bucket = record {
  asn = asn;
  total = length bucket;
  elite = elite_in bucket;
  avg_latency_ms = average_latency (map (λ item. item.latency_ms) bucket);
}

abbrev pub country_after : GeoCountrySummary → GeoCountrySummary → Bool
country_after left right = ltb left.total right.total

abbrev pub asn_after : GeoAsnSummary → GeoAsnSummary → Bool
asn_after left right = ltb left.total right.total

abbrev empty_buckets : GeoBuckets
empty_buckets = record { country_buckets = []; asn_buckets = []; geo_tagged_proxies = 0 }

unfoldable pub derive_geo_summary : List ProxyEndpoint → GeoSummary
unfolding note_items country_summary asn_summary
derive_geo_summary items =
    let b = note_items empty_buckets items in
    let tagged = b.geo_tagged_proxies in
    record {
      coverage = record {
        total_proxies = length items;
        geo_tagged_proxies = tagged;
        unresolved_proxies = length items - tagged;
        geo_enabled = ltb 0 tagged;
        geo_file = codes "";
        geo_file_exists = ltb 0 tagged;
      };
      countries = sort country_after (map (λ e. country_summary e.0 e.1) b.country_buckets);
      asns = sort asn_after (map (λ e. asn_summary e.0 e.1) b.asn_buckets);
    }

pub bucket_by_source :
    List (Text × List ProxyEndpoint) → List ProxyEndpoint → List (Text × List ProxyEndpoint)
bucket_by_source m [] = m
bucket_by_source m (item ∷ items) = bucket_by_source (push_if (some item.source) item m) items

-- `item.last_checked_at || item.last_success_at || null`
abbrev pub fetched_at : ProxyEndpoint → Option Text
fetched_at item = or_option (non_empty item.last_checked_at) (non_empty item.last_success_at)

abbrev pub is_valid : ProxyEndpoint → Bool
is_valid item = item.status == checked || item.status == ProxyPool.elite

pub provider_summary : Text → List ProxyEndpoint → ProviderSummary
provider_summary name bucket = record {
  name = name;
  enabled = true;
  last_fetch_at = last? (sort text_after (known_texts (map fetched_at bucket)));
  fetched_count = length bucket;
  valid_count = length (filter is_valid bucket);
  last_error = head? (known_texts (map (λ item. item.last_error) bucket));
}

abbrev pub provider_after : ProviderSummary → ProviderSummary → Bool
provider_after left right =
    if left.valid_count == right.valid_count
    then ltb left.fetched_count right.fetched_count
    else ltb left.valid_count right.valid_count

unfoldable pub derive_provider_summaries : List ProxyEndpoint → List ProviderSummary
unfolding bucket_by_source provider_summary
derive_provider_summaries items =
    sort provider_after (map (λ e. provider_summary e.0 e.1) (bucket_by_source [] items))
