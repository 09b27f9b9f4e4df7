-- ===== src/ProxyList.antt =====
-- dashboard/src/lib/proxy-list.ts: the proxy list's filters, its order and the filter options.
-- `date_parse` is `Date.parse` in milliseconds since 1970, `none` for NaN; it is the environment's.
pub mod Filtering
pub mod Ordering
pub mod Options
use proxy_pool_architect.Base.{
  ℕ, ◌-◌, Bool, true, false, not, ◌&&◌, ◌||◌, Option, none, some, List, [], ◌∷◌, map, filter, ltb,
  leb, if◌then◌else◌, ◌==◌, nat_eq, Equality,
}
use proxy_pool_architect.Base.Text.{
  Text, text_eq, truthy, non_empty, trim, to_lower, includes, text_ltb, has,
}
use proxy_pool_architect.Base.Sort.{sort}
use proxy_pool_architect.Types.Unions.{pool_eq, scheme_eq, anonymity_eq}
use proxy_pool_architect.Types.Records.{ProxyEndpoint, ProxyListQuery, ProxyFilterOptions}

-- `wanted ? actual === wanted : true`
abbrev pub same_as {ℓ} : {A : Type ℓ} ⦃e : Equality A⦄ → Option A → A → Bool
same_as none actual = true
same_as (some wanted) actual = actual == wanted

-- The same where an empty string asks for nothing.
abbrev pub same_text : Option Text → Option Text → Bool
same_text wanted actual = elim (non_empty wanted) [
  | none ↦ true
  | some w ↦ elim actual [ none ↦ false | some a ↦ a == w ]
]

abbrev pub at_least : Option ℕ → ℕ → Bool
at_least none score = true
at_least (some least) score = leb least score

abbrev pub found_by : Option Text → ProxyEndpoint → Bool
found_by q proxy = elim (non_empty q) [
  | none ↦ true
  | some text ↦
      let needle = to_lower (trim text) in
      includes needle (to_lower proxy.host) || includes needle (to_lower proxy.id)
]

module _ (date_parse : Text → Option ℕ) where
  -- The time by which two equal scores are told apart; `none` is NaN.
  abbrev pub checked_time : ProxyEndpoint → Option ℕ
  checked_time proxy = elim (non_empty proxy.last_checked_at) [
    | none ↦ some 0
    | some text ↦ date_parse text
  ]

  -- `rightTime - leftTime` is positive, which a comparison with NaN is not
  abbrev later : Option ℕ → Option ℕ → Bool
  later none right = false
  later (some left) none = false
  later (some left) (some right) = ltb left right

  -- The comparator's value at `left` and `right` is positive.
  unfoldable pub listed_after : ProxyEndpoint → ProxyEndpoint → Bool
  listed_after left right =
      if left.score == right.score
      then later (checked_time left) (checked_time right)
      else ltb left.score right.score

  unfoldable pub filter_and_sort_proxies : List ProxyEndpoint → ProxyListQuery → List ProxyEndpoint
  unfolding listed_after
  filter_and_sort_proxies items query =
      let by_pool = filter (λ proxy. same_as query.pool proxy.status) items in
      let by_scheme = filter (λ proxy. same_as query.scheme proxy.scheme) by_pool in
      let by_anonymity = filter (λ proxy. same_as query.anonymity proxy.anonymity) by_scheme in
      let by_country = filter (λ proxy. same_text query.country proxy.country) by_anonymity in
      let by_source = filter (λ proxy. same_text query.source (some proxy.source)) by_country in
      let by_score = filter (λ proxy. at_least query.min_score proxy.score) by_source in
      sort listed_after (filter (found_by query.q) by_score)

-- `[...new Set(items)]`: each value at its first place.
unfoldable pub unique_from : List Text → List Text → List Text
unique_from seen [] = []
unique_from seen (x ∷ xs) =
    let rest = unique_from (x ∷ seen) xs in
    let skipped = unique_from seen xs in if has x seen then skipped else x ∷ rest

unfoldable pub unique : List Text → List Text
unfolding unique_from
unique items = unique_from [] items

-- The truthy countries, in order.
abbrev pub present : List (Option Text) → List Text
present [] = []
present (c ∷ cs) = elim (non_empty c) [ none ↦ present cs | some t ↦ t ∷ present cs ]

-- `a` stands behind `b` in the default order of strings
abbrev pub text_after : Text → Text → Bool
text_after a b = text_ltb b a

unfoldable pub collect_proxy_filter_options : List ProxyEndpoint → ProxyFilterOptions
unfolding unique
collect_proxy_filter_options items = record {
  countries = sort text_after (unique (present (map (λ proxy. proxy.country) items)));
  sources = sort text_after (unique (map (λ proxy. proxy.source) items));
}
