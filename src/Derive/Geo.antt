-- ===== src/Derive/Geo.antt =====
-- dashboard/src/lib/dashboard-derive.ts: the geo summary.
use mathlib.Core.List.{map}
use proxy_pool_architect.Base.{
  AllPairs, ◌+◌, ◌≤◌, ◌≡◌, refl, ap, Bool, Option, List, [], ◌∷◌, All, filter, any, length,
  length-filter-le, sum_by, arith, ltb, if◌then◌else◌, All-intro, is_some,
}
use proxy_pool_architect.Base.Text.{Text, non_empty, text_beq}
use proxy_pool_architect.Base.Sort.{sort, IsPreorder, sort-AllPairs}
use proxy_pool_architect.Base.Group.{is_key, group_from, group_by}
use proxy_pool_architect.Derive.Grouping.{
  summaries, summaries-IsOwn, sum_by-summaries, sum_by_size-summaries,
}
use proxy_pool_architect.Types.Records.{ProxyEndpoint}
use proxy_pool_architect.Derive.{
  GeoBuckets, is_tagged, note_item, note_items, empty_buckets, country_summary, asn_summary,
  country_after, asn_after, derive_geo_summary,
}

country_buckets-note_items :
    (b : GeoBuckets) (items : List ProxyEndpoint)
    → (note_items b items).country_buckets
      ≡ group_from (λ item. non_empty item.country) b.country_buckets items
unfolding note_items group_from
country_buckets-note_items b [] = refl
country_buckets-note_items b (item ∷ items) = country_buckets-note_items (note_item b item) items

asn_buckets-note_items :
    (b : GeoBuckets) (items : List ProxyEndpoint)
    → (note_items b items).asn_buckets ≡ group_from (λ item. non_empty item.asn) b.asn_buckets items
unfolding note_items group_from
asn_buckets-note_items b [] = refl
asn_buckets-note_items b (item ∷ items) = asn_buckets-note_items (note_item b item) items

geo_tagged-note_items :
    (b : GeoBuckets) (items : List ProxyEndpoint)
    → (note_items b items).geo_tagged_proxies
      ≡ b.geo_tagged_proxies + length (filter is_tagged items)
unfolding note_items
geo_tagged-note_items b [] = omega arith
geo_tagged-note_items b (item ∷ items) =
    ground (arith, geo_tagged-note_items (note_item b item) items)

filter-length-any :
    (p : ProxyEndpoint → Bool) (items : List ProxyEndpoint)
    → ltb 0 (length (filter p items)) ≡ any p items
filter-length-any p [] = refl
filter-length-any p (item ∷ items) = ground (arith, filter-length-any p items)

-- The coverage counts the proxies that have a country or an ASN, and the others; the two numbers add
-- up to the number of proxies, and the geo data counts as enabled exactly when a proxy is tagged.
pub derive_geo_summary-coverage :
    (items : List ProxyEndpoint)
    → let c = (derive_geo_summary items).coverage in
      (c.geo_tagged_proxies ≡ length (filter is_tagged items))
      × (c.geo_tagged_proxies + c.unresolved_proxies ≡ c.total_proxies)
      × (c.total_proxies ≡ length items)
      × (c.geo_enabled ≡ any is_tagged items)
      × (c.geo_file_exists ≡ c.geo_enabled)
unfolding derive_geo_summary
derive_geo_summary-coverage items =
    let tagged = geo_tagged-note_items empty_buckets items in
    let enabled = filter-length-any is_tagged items in
    let fits = length-filter-le is_tagged items in
    (omega arith, omega arith, refl, ground arith, refl)

country_after-IsPreorder : IsPreorder country_after (λ _. Unit {0})
country_after-IsPreorder = record {
  total = λ x y _ _ h. ground arith;
  trans = λ x y z _ _ _ h k. ground arith;
}

asn_after-IsPreorder : IsPreorder asn_after (λ _. Unit {0})
asn_after-IsPreorder = record {
  total = λ x y _ _ h. ground arith;
  trans = λ x y z _ _ _ h k. ground arith;
}

abbrev pub country_key : ProxyEndpoint → Option Text
country_key item = non_empty item.country

country_summary-country :
    (t : Text) (bucket : List ProxyEndpoint) → (country_summary t bucket).country ≡ t
unfolding country_summary
country_summary-country t bucket = refl

country_summary-total :
    (t : Text) (bucket : List ProxyEndpoint) → (country_summary t bucket).total ≡ length bucket
unfolding country_summary
country_summary-total t bucket = refl

countries-summaries :
    (items : List ProxyEndpoint)
    → (derive_geo_summary items).countries
      ≡ summaries country_key
          (λ s. s.country)
          country_summary
          country_summary-country
          country_after
          items
unfolding derive_geo_summary group_by
countries-summaries items =
    ap (λ m. sort country_after (map (λ e. country_summary e.0 e.1) m))
      (country_buckets-note_items empty_buckets items)

abbrev pub asn_key : ProxyEndpoint → Option Text
asn_key item = non_empty item.asn

asn_summary-asn : (t : Text) (bucket : List ProxyEndpoint) → (asn_summary t bucket).asn ≡ t
unfolding asn_summary
asn_summary-asn t bucket = refl

asn_summary-total :
    (t : Text) (bucket : List ProxyEndpoint) → (asn_summary t bucket).total ≡ length bucket
unfolding asn_summary
asn_summary-total t bucket = refl

asns-summaries :
    (items : List ProxyEndpoint)
    → (derive_geo_summary items).asns
      ≡ summaries asn_key (λ s. s.asn) asn_summary asn_summary-asn asn_after items
unfolding derive_geo_summary group_by
asns-summaries items =
    ap (λ m. sort asn_after (map (λ e. asn_summary e.0 e.1) m))
      (asn_buckets-note_items empty_buckets items)

-- The country list of `deriveGeoSummary` has one summary for each country of a proxy, in descending order of size; each
-- summary is that of exactly the proxies of its country, in the given order, and the totals add up to
-- the number of proxies that have a country.
pub derive_geo_summary-countries :
    (items : List ProxyEndpoint) (x : Text)
    → All
        (λ s.
          s
          ≡ country_summary s.country (filter (λ item. is_key s.country (country_key item)) items))
        (derive_geo_summary items).countries
      × (sum_by (λ s. if text_beq s.country x then 1 else 0) (derive_geo_summary items).countries
          ≡ (if any (λ item. is_key x (country_key item)) items then 1 else 0))
      × AllPairs (λ a b. b.total ≤ a.total) (derive_geo_summary items).countries
      × (sum_by (λ s. s.total) (derive_geo_summary items).countries
          ≡ length (filter (λ item. is_some (country_key item)) items))
derive_geo_summary-countries items x = rw (countries-summaries items) (
  summaries-IsOwn country_key (λ s. s.country) country_summary country_summary-country country_after
      items,
  sum_by-summaries country_key (λ s. s.country) country_summary country_summary-country
      country_after items x,
  sort-AllPairs country_after (λ _. Unit) _ country_after-IsPreorder (λ a b _ _ h. ground arith) _
      (All-intro _ (λ _. tt)),
  sum_by_size-summaries country_key (λ s. s.country) country_summary country_summary-country
      country_after items (λ s. s.total) country_summary-total,
)

-- The ASN list has one summary for each ASN of a proxy, in descending order of size; each summary is
-- that of exactly the proxies of its ASN, in the given order, and the totals add up to the number of
-- proxies that have an ASN.
pub derive_geo_summary-asns :
    (items : List ProxyEndpoint) (x : Text)
    → All
        (λ s. s ≡ asn_summary s.asn (filter (λ item. is_key s.asn (asn_key item)) items))
        (derive_geo_summary items).asns
      × (sum_by (λ s. if text_beq s.asn x then 1 else 0) (derive_geo_summary items).asns
          ≡ (if any (λ item. is_key x (asn_key item)) items then 1 else 0))
      × AllPairs (λ a b. b.total ≤ a.total) (derive_geo_summary items).asns
      × (sum_by (λ s. s.total) (derive_geo_summary items).asns
          ≡ length (filter (λ item. is_some (asn_key item)) items))
derive_geo_summary-asns items x = rw (asns-summaries items) (
  summaries-IsOwn asn_key (λ s. s.asn) asn_summary asn_summary-asn asn_after items,
  sum_by-summaries asn_key (λ s. s.asn) asn_summary asn_summary-asn asn_after items x,
  sort-AllPairs asn_after (λ _. Unit) _ asn_after-IsPreorder (λ a b _ _ h. ground arith) _
      (All-intro _ (λ _. tt)),
  sum_by_size-summaries asn_key (λ s. s.asn) asn_summary asn_summary-asn asn_after items
      (λ s. s.total) asn_summary-total,
)
