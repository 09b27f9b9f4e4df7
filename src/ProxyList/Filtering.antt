-- ===== src/ProxyList/Filtering.antt =====
-- dashboard/src/lib/proxy-list.ts: what the chain of filters keeps.
use mathlib.Core.List.{Perm}
use mathlib.Core.Path.{subst}
use proxy_pool_architect.Base.{
  ℕ, Bool, ◌≡◌, ap, Option, some, List, ◌&&◌, filter, length, filter-filter, ◌∙◌,
}
use proxy_pool_architect.Base.Text.{Text}
use proxy_pool_architect.Base.Sort.{sort-perm, sort-length}
use proxy_pool_architect.Types.Unions.{pool_eq, scheme_eq, anonymity_eq}
use proxy_pool_architect.Types.Records.{ProxyEndpoint, ProxyListQuery}
use proxy_pool_architect.ProxyList.{
  same_as, same_text, at_least, found_by, listed_after, filter_and_sort_proxies,
}

-- All seven criteria of a query at once.
abbrev pub matches : ProxyListQuery → ProxyEndpoint → Bool
matches query proxy =
    same_as query.pool proxy.status
    && same_as query.scheme proxy.scheme
    && same_as query.anonymity proxy.anonymity
    && same_text query.country proxy.country
    && same_text query.source (some proxy.source)
    && at_least query.min_score proxy.score
    && found_by query.q proxy

module _ {A : Type 0} where
  pub filter_chain :
      (p1 p2 p3 p4 p5 p6 p7 : A → Bool) (xs : List A)
      → filter p7 (filter p6 (filter p5 (filter p4 (filter p3 (filter p2 (filter p1 xs))))))
        ≡ filter (λ x. p1 x && p2 x && p3 x && p4 x && p5 x && p6 x && p7 x) xs
  filter_chain p1 p2 p3 p4 p5 p6 p7 xs = simp filter-filter

module _ (date_parse : Text → Option ℕ) (items : List ProxyEndpoint) (query : ProxyListQuery) where
  -- What `filterAndSortProxies` gives is a rearrangement of the proxies that meet all criteria of the query: each is kept
  -- as often as it is given, and no other proxy is.
  pub filter_and_sort_proxies-perm :
      Perm (filter_and_sort_proxies date_parse items query) (filter (matches query) items)
  unfolding filter_and_sort_proxies
  filter_and_sort_proxies-perm =
      subst (Perm (filter_and_sort_proxies date_parse items query))
        (filter_chain _ _ _ _ _ _ _ items) (sort-perm (listed_after date_parse) _)

  pub length-filter_and_sort_proxies :
      length (filter_and_sort_proxies date_parse items query)
      ≡ length (filter (matches query) items)
  unfolding filter_and_sort_proxies
  length-filter_and_sort_proxies =
      sort-length (listed_after date_parse) _ ∙ ap length (filter_chain _ _ _ _ _ _ _ items)
