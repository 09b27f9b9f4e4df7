-- ===== src/Pages/Proxies/Filters/Choices.antt =====
-- dashboard/src/components/proxies/ProxyFilters.tsx: what the form can choose.
use proxy_pool_architect.Base.{
  ℕ, Bool, true, false, ◌≡◌, refl, ◌∙◌, ap, Option, none, some, List, [], ◌∷◌, ◌++◌, any, arith,
  ◌==◌, Equality, ==_refl,
}
use proxy_pool_architect.Base.Text.{Text, text_eq, truthy, non_empty}
use proxy_pool_architect.Types.Unions.{
  ProxyPool, ProxyScheme, ProxyAnonymity, pool_eq, scheme_eq, anonymity_eq,
}
use proxy_pool_architect.Types.Records.{ProxyEndpoint}
use proxy_pool_architect.ProxyList.{collect_proxy_filter_options}
use proxy_pool_architect.ProxyList.Filtering.{matches}
use proxy_pool_architect.ProxyList.Options.{
  occurrences, one_if, lies_in, collect_proxy_filter_options_lem,
}
use proxy_pool_architect.Pages.Proxies.{ProxyFilterState, default_filters, query_of}
use proxy_pool_architect.Pages.Proxies.Filters.{
  pools, schemes, anonymities, FilterEdit, choose_pool, choose_scheme, choose_anonymity,
  choose_country, choose_source, update_field,
}

abbrev pub offers {ℓ} : {A : Type ℓ} ⦃e : Equality A⦄ → A → List (Option A) → Bool
offers a choices = any (λ choice. elim choice [ none ↦ false | some c ↦ c == a ]) choices

pools-offers : (pool : ProxyPool) → offers pool pools ≡ true
pools-offers pool = ground arith

schemes-offers : (scheme : ProxyScheme) → offers scheme schemes ≡ true
schemes-offers scheme = ground arith

anonymities-offers : (anonymity : ProxyAnonymity) → offers anonymity anonymities ≡ true
anonymities-offers anonymity = ground arith

-- The edits that choose all that a proxy is listed with, from top to bottom.
abbrev pub choices_for : ProxyEndpoint → Text → List FilterEdit
choices_for proxy country =
    choose_pool (some proxy.status)
    ∷ choose_scheme (some proxy.scheme)
    ∷ choose_anonymity (some proxy.anonymity)
    ∷ choose_country country
    ∷ choose_source proxy.source
    ∷ []

abbrev pub updated : List FilterEdit → ProxyFilterState → ProxyFilterState
updated [] filters = filters
updated (edit ∷ edits) filters = elim (update_field edit filters) [
  | none ↦ updated edits filters
  | some next ↦ updated edits next
]

truthy-some : (s : Text) → truthy s ≡ true → non_empty (some s) ≡ some s
truthy-some s h = rw h refl

any-intro :
    (p : ProxyEndpoint → Bool) (before after : List ProxyEndpoint) (proxy : ProxyEndpoint)
    → p proxy ≡ true
    → any p (before ++ proxy ∷ after) ≡ true
any-intro p [] after proxy h = rw h refl
any-intro p (x ∷ before) after proxy h = ground (arith, any-intro p before after proxy h)

lies_in-country :
    (proxy : ProxyEndpoint) (country : Text)
    → proxy.country ≡ some country
    → truthy country ≡ true
    → lies_in country proxy ≡ true
lies_in-country proxy country listed named = ground (arith, ==_refl country)

matches-chosen :
    (number : Text → ℕ) (page : ℕ) (proxy : ProxyEndpoint) (country : Text)
    → proxy.country ≡ some country
    → truthy country ≡ true
    → truthy proxy.source ≡ true
    → matches (query_of number (updated (choices_for proxy country) default_filters) page) proxy
      ≡ true
unfolding query_of update_field
matches-chosen number page proxy country listed named sourced = ground (
  arith,
  ==_refl proxy.status,
  ==_refl proxy.scheme,
  ==_refl proxy.anonymity,
  ==_refl country,
  ==_refl proxy.source,
)

-- For each proxy of a list that has a source and a country, the form offers its pool, scheme and
-- anonymity, and the filter options of the list name its country and its source once; and when all five
-- are chosen, the request for any page asks for what the proxy meets.
pub matches-updated :
    (number : Text → ℕ) (page : ℕ) (before after : List ProxyEndpoint) (proxy : ProxyEndpoint)
    (country : Text)
    → proxy.country ≡ some country
    → truthy country ≡ true
    → truthy proxy.source ≡ true
    → let options = collect_proxy_filter_options (before ++ proxy ∷ after) in
      let filters = updated (choices_for proxy country) default_filters in
      (offers proxy.status pools ≡ true)
      × (offers proxy.scheme schemes ≡ true)
      × (offers proxy.anonymity anonymities ≡ true)
      × (occurrences country options.countries ≡ 1)
      × (occurrences proxy.source options.sources ≡ 1)
      × (matches (query_of number filters page) proxy ≡ true)
matches-updated number page before after proxy country listed named sourced =
    let once = collect_proxy_filter_options_lem country (before ++ proxy ∷ after) in
    let once_more = collect_proxy_filter_options_lem proxy.source (before ++ proxy ∷ after) in
    (
      pools-offers proxy.status,
      schemes-offers proxy.scheme,
      anonymities-offers proxy.anonymity,
      once.1
          ∙ ap one_if (
              any-intro (lies_in country) before after proxy
                (lies_in-country proxy country listed named)),
      once_more.0
          ∙ ap one_if
              (any-intro (λ p. p.source == proxy.source) before after proxy (==_refl proxy.source)),
      matches-chosen number page proxy country listed named sourced,
    )
