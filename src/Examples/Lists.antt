-- ===== src/Examples/Lists.antt =====
-- The list of proxies and the summaries of dashboard/src/lib/proxy-list.ts and
-- dashboard/src/lib/dashboard-derive.ts at three proxies.
use proxy_pool_architect.Base.{
  ◌≤◌, ◌≡◌, refl, Bool, true, false, none, some, [], ◌∷◌, All, filter, map, nat_beq, ◌&&◌, arith,
  Option-cases, inl, inr, AllPairs, or_else, ◌<◌, ◌⊎◌, sum_by, if◌then◌else◌,
}
use mathlib.Core.List.{Perm}
use proxy_pool_architect.Base.Text.{codes, text_beq}
use proxy_pool_architect.Base.Sort.{sort}
use proxy_pool_architect.Base.Group.{is_key}
use proxy_pool_architect.Types.Records.{ProxyEndpoint}
use proxy_pool_architect.ProxyList.{checked_time, filter_and_sort_proxies}
use proxy_pool_architect.ProxyList.Filtering.{filter_and_sort_proxies-perm}
use proxy_pool_architect.ProxyList.Ordering.{
  filter_and_sort_proxies-AllPairs, filter-filter_and_sort_proxies,
}
use proxy_pool_architect.Derive.{
  country_summary, derive_geo_summary, provider_summary, derive_provider_summaries,
}
use proxy_pool_architect.Derive.Geo.{country_key, derive_geo_summary-countries}
use proxy_pool_architect.Derive.Providers.{source_key, derive_provider_summaries_lem}
use proxy_pool_architect.Examples.Samples.{
  read_date, first_proxy, third_proxy, three_proxies, http_query, any_query,
}

-- Both proxies of the scheme have the same score, and the one that was checked later comes first.
listed_order :
    map (λ p. p.id) (filter_and_sort_proxies read_date three_proxies http_query)
    ≡ codes "c" ∷ codes "a" ∷ []
unfolding filter_and_sort_proxies sort
listed_order = refl

filter_and_sort_proxies-perm_example :
    Perm
      (filter_and_sort_proxies read_date three_proxies http_query)
      (first_proxy ∷ third_proxy ∷ [])
filter_and_sort_proxies-perm_example =
    filter_and_sort_proxies-perm read_date three_proxies http_query

filter_and_sort_proxies-AllPairs_example :
    AllPairs
      (λ x y.
        (y.score < x.score)
        ⊎ ((y.score ≡ x.score)
            × (or_else (checked_time read_date y) 0 ≤ or_else (checked_time read_date x) 0)))
      (filter_and_sort_proxies read_date three_proxies any_query)
filter_and_sort_proxies-AllPairs_example =
    filter_and_sort_proxies-AllPairs read_date three_proxies any_query
      ((5, refl), ((3, refl), ((8, refl), tt)))

-- A score of 70 and a last check at 5.
abbrev is_tied : ProxyEndpoint → Bool
is_tied x =
    nat_beq x.score 70 && elim (checked_time read_date x) [ none ↦ false | some t ↦ nat_beq t 5 ]

is_tied_same :
    (x : ProxyEndpoint) → is_tied x ≡ true → (x.score ≡ 70) × (checked_time read_date x ≡ some 5)
is_tied_same x h = elim (Option-cases (checked_time read_date x)) [
  | inl missing ↦ ground arith
  | inr (t, read) ↦ ground arith
]

filter-filter_and_sort_proxies_example :
    filter is_tied (filter_and_sort_proxies read_date three_proxies any_query) ≡ first_proxy ∷ []
filter-filter_and_sort_proxies_example =
    filter-filter_and_sort_proxies read_date three_proxies any_query 70 5 is_tied
      ((5, refl), ((3, refl), ((8, refl), tt))) is_tied_same

derive_geo_summary-countries_example :
    All
      (λ s.
        s
        ≡ country_summary s.country
            (filter (λ item. is_key s.country (country_key item)) three_proxies))
      (derive_geo_summary three_proxies).countries
    × (sum_by
          (λ s. if text_beq s.country (codes "DE") then 1 else 0)
          (derive_geo_summary three_proxies).countries
        ≡ 1)
    × AllPairs (λ a b. b.total ≤ a.total) (derive_geo_summary three_proxies).countries
    × (sum_by (λ s. s.total) (derive_geo_summary three_proxies).countries ≡ 3)
derive_geo_summary-countries_example = derive_geo_summary-countries three_proxies (codes "DE")

derive_provider_summaries_lem_example :
    All
      (λ s.
        s
        ≡ provider_summary s.name (filter (λ item. is_key s.name (source_key item)) three_proxies))
      (derive_provider_summaries three_proxies)
    × (sum_by
          (λ s. if text_beq s.name (codes "tor") then 1 else 0)
          (derive_provider_summaries three_proxies)
        ≡ 1)
    × AllPairs
        (λ a b.
          (b.valid_count < a.valid_count)
          ⊎ ((b.valid_count ≡ a.valid_count) × (b.fetched_count ≤ a.fetched_count)))
        (derive_provider_summaries three_proxies)
    × (sum_by (λ s. s.fetched_count) (derive_provider_summaries three_proxies) ≡ 3)
derive_provider_summaries_lem_example = derive_provider_summaries_lem three_proxies (codes "tor")
