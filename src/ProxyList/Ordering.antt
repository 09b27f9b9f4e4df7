-- ===== src/ProxyList/Ordering.antt =====
-- dashboard/src/lib/proxy-list.ts: the order of the list.
use proxy_pool_architect.Base.{
  ℕ, Bool, true, false, ◌≡◌, Option, none, some, List, filter, All, arith, All-filter, ap, ◌∙◌,
  order_cases, or_else, AllPairs, inl, inr, ◌≤◌, ◌<◌, ◌⊎◌, nat_eq,
}
use proxy_pool_architect.Base.Text.{Text}
use proxy_pool_architect.Base.Sort.{IsPreorder, sort-AllPairs, filter-sort}
use proxy_pool_architect.Types.Records.{ProxyEndpoint, ProxyListQuery}
use proxy_pool_architect.ProxyList.{checked_time, listed_after, filter_and_sort_proxies}
use proxy_pool_architect.ProxyList.Filtering.{matches, filter_chain}
use proxy_pool_architect.Types.Unions.{pool_eq, scheme_eq, anonymity_eq}

module _ (date_parse : Text → Option ℕ) where
  -- The proxy's last check is missing or a date that can be read.
  abbrev pub IsDated : ProxyEndpoint → Type 0
  IsDated proxy = (t : ℕ) × (checked_time date_parse proxy ≡ some t)

  pub listed_after-IsPreorder : IsPreorder (listed_after date_parse) IsDated
  unfolding listed_after
  listed_after-IsPreorder = record {
    total = λ x y (t, p) (u, q) h. ground arith;
    trans = λ x y z (t, p) (u, q) (v, r) h k. ground arith;
  }

  in_order :
      (x y : ProxyEndpoint)
      → IsDated x
      → IsDated y
      → listed_after date_parse x y ≡ false
      → (y.score < x.score)
        ⊎ ((y.score ≡ x.score)
            × (or_else (checked_time date_parse y) 0 ≤ or_else (checked_time date_parse x) 0))
  unfolding listed_after
  in_order x y (t, p) (u, q) h = elim (order_cases y.score x.score) [
    | inl less ↦ inl less
    | inr (inl same) ↦ inr (same, ground arith)
    | inr (inr more) ↦ absurd (ground arith)
  ]

  not-listed_after :
      (x y : ProxyEndpoint) (score : ℕ) (time : Option ℕ)
      → (x.score ≡ score) × (checked_time date_parse x ≡ time)
      → (y.score ≡ score) × (checked_time date_parse y ≡ time)
      → listed_after date_parse x y ≡ false
  unfolding listed_after
  not-listed_after x y score none p q = ground arith
  not-listed_after x y score (some t) p q = ground arith

module _ (date_parse : Text → Option ℕ) (items : List ProxyEndpoint) (query : ProxyListQuery) where
  -- If every proxy's last check is missing or a readable date, then of two proxies of the result the one
  -- that stands first has the higher score or, where the scores agree, no earlier last check.
  pub filter_and_sort_proxies-AllPairs :
      All (IsDated date_parse) items
      → AllPairs
          (λ x y.
            (y.score < x.score)
            ⊎ ((y.score ≡ x.score)
                × (or_else (checked_time date_parse y) 0 ≤ or_else (checked_time date_parse x) 0)))
          (filter_and_sort_proxies date_parse items query)
  unfolding filter_and_sort_proxies
  filter_and_sort_proxies-AllPairs dated =
      sort-AllPairs (listed_after date_parse) (IsDated date_parse) _
        (listed_after-IsPreorder date_parse) (in_order date_parse) _
        (All-filter _ _ _ (
          All-filter _ _ _ (
            All-filter _ _ _ (
              All-filter _ _ _
                (All-filter _ _ _ (All-filter _ _ _ (All-filter _ _ items dated)))))))

  -- If every proxy's last check is missing or a readable date, proxies that agree on score and time of
  -- the last check keep the order that they were given in.
  pub filter-filter_and_sort_proxies :
      (score time : ℕ) (tied : ProxyEndpoint → Bool)
      → All (IsDated date_parse) items
      → ((x : ProxyEndpoint)
          → tied x ≡ true
          → (x.score ≡ score) × (checked_time date_parse x ≡ some time))
      → filter tied (filter_and_sort_proxies date_parse items query)
        ≡ filter tied (filter (matches query) items)
  unfolding filter_and_sort_proxies
  filter-filter_and_sort_proxies score time tied dated same =
      filter-sort (listed_after date_parse) tied
        (λ x y p q. not-listed_after date_parse x y score (some time) (same x p) (same y q)) _
      ∙ ap (filter tied) (filter_chain _ _ _ _ _ _ _ items)
