-- ===== src/Derive/Providers.antt =====
-- dashboard/src/lib/dashboard-derive.ts: the provider summaries.
use proxy_pool_architect.Base.{
  AllPairs, order_cases, inl, inr, ◌⊎◌, ◌<◌, ◌≤◌, ◌≡◌, refl, ap, ◌∙◌, suc, false, Option, some,
  List, [], ◌∷◌, All, All-intro, All-map, filter, any, map, length, length-filter-le, sum_by, arith,
  if◌then◌else◌, is_some,
}
use proxy_pool_architect.Base.Text.{Text, text_beq}
use proxy_pool_architect.Base.Sort.{sort, IsPreorder, sort-AllPairs}
use proxy_pool_architect.Base.Group.{is_key, group_from, group_by, push_if}
use proxy_pool_architect.Derive.Grouping.{
  summaries, summaries-IsOwn, sum_by-summaries, sum_by_size-summaries,
}
use proxy_pool_architect.Types.Records.{ProxyEndpoint, ProviderSummary}
use proxy_pool_architect.Derive.{
  bucket_by_source, is_valid, provider_summary, provider_after, derive_provider_summaries,
}

abbrev pub source_key : ProxyEndpoint → Option Text
source_key item = some item.source

provider_summary-name :
    (t : Text) (bucket : List ProxyEndpoint) → (provider_summary t bucket).name ≡ t
unfolding provider_summary
provider_summary-name t bucket = refl

provider_summary-fetched_count :
    (t : Text) (bucket : List ProxyEndpoint)
    → (provider_summary t bucket).fetched_count ≡ length bucket
unfolding provider_summary
provider_summary-fetched_count t bucket = refl

bucket_by_source-eq-group_from :
    (m : List (Text × List ProxyEndpoint)) (items : List ProxyEndpoint)
    → bucket_by_source m items ≡ group_from source_key m items
unfolding bucket_by_source group_from
bucket_by_source-eq-group_from m [] = refl
bucket_by_source-eq-group_from m (item ∷ items) =
    bucket_by_source-eq-group_from (push_if (source_key item) item m) items

provider_after-IsPreorder : IsPreorder provider_after (λ _. Unit {0})
provider_after-IsPreorder = record {
  total = λ x y _ _ h. ground arith;
  trans = λ x y z _ _ _ h k. ground arith;
}

in_order :
    (a b : ProviderSummary)
    → provider_after a b ≡ false
    → (b.valid_count < a.valid_count)
      ⊎ ((b.valid_count ≡ a.valid_count) × (b.fetched_count ≤ a.fetched_count))
in_order a b h = elim (order_cases b.valid_count a.valid_count) [
  | inl less ↦ inl less
  | inr (inl same) ↦ inr (same, ground arith)
  | inr (inr more) ↦ absurd (ground arith)
]

derive_provider_summaries-summaries :
    (items : List ProxyEndpoint)
    → derive_provider_summaries items
      ≡ summaries source_key
          (λ s. s.name)
          provider_summary
          provider_summary-name
          provider_after
          items
unfolding derive_provider_summaries group_by
derive_provider_summaries-summaries items =
    ap (λ m. sort provider_after (map (λ e. provider_summary e.0 e.1) m))
      (bucket_by_source-eq-group_from [] items)

filter_all :
    (items : List ProxyEndpoint)
    → length (filter (λ item. is_some (source_key item)) items) ≡ length items
filter_all [] = refl
filter_all (item ∷ items) = ap suc (filter_all items)

-- There is one summary for each source of a proxy, and it is that of exactly the proxies of its
-- source, in the given order. The summaries stand in descending order of valid proxies and, where
-- these agree, of fetched ones, and the fetched counts add up to the number of proxies.
pub derive_provider_summaries_lem :
    (items : List ProxyEndpoint) (x : Text)
    → All
        (λ s. s ≡ provider_summary s.name (filter (λ item. is_key s.name (source_key item)) items))
        (derive_provider_summaries items)
      × (sum_by (λ s. if text_beq s.name x then 1 else 0) (derive_provider_summaries items)
          ≡ (if any (λ item. is_key x (source_key item)) items then 1 else 0))
      × AllPairs
          (λ a b.
            (b.valid_count < a.valid_count)
            ⊎ ((b.valid_count ≡ a.valid_count) × (b.fetched_count ≤ a.fetched_count)))
          (derive_provider_summaries items)
      × (sum_by (λ s. s.fetched_count) (derive_provider_summaries items) ≡ length items)
derive_provider_summaries_lem items x = rw (derive_provider_summaries-summaries items) (
  summaries-IsOwn source_key (λ s. s.name) provider_summary provider_summary-name provider_after
      items,
  sum_by-summaries source_key (λ s. s.name) provider_summary provider_summary-name provider_after
      items x,
  sort-AllPairs provider_after (λ _. Unit) _ provider_after-IsPreorder (λ a b _ _ h. in_order a b h)
      _ (All-intro _ (λ _. tt)),
  sum_by_size-summaries source_key (λ s. s.name) provider_summary provider_summary-name
        provider_after items (λ s. s.fetched_count) provider_summary-fetched_count
      ∙ filter_all items,
)

-- No provider has more valid proxies than fetched ones.
pub derive_provider_summaries-valid_le_fetched :
    (items : List ProxyEndpoint)
    → All (λ s. s.valid_count ≤ s.fetched_count) (derive_provider_summaries items)
unfolding provider_summary
derive_provider_summaries-valid_le_fetched items =
    All-map (derive_provider_summaries items) within (derive_provider_summaries_lem items []).0
  where
    within :
        (s : ProviderSummary)
        → s ≡ provider_summary s.name (filter (λ item. is_key s.name (source_key item)) items)
        → s.valid_count ≤ s.fetched_count
    within s own =
        let bucket = filter (λ item. is_key s.name (source_key item)) items in
        let valid : s.valid_count ≡ length (filter is_valid bucket) = ap (λ r. r.valid_count) own in
        let fetched : s.fetched_count ≡ length bucket = ap (λ r. r.fetched_count) own in
        omega (arith, length-filter-le is_valid bucket)
