-- ===== src/MockStore/Paging.antt =====
-- dashboard/src/lib/mock-data.ts: the pages of the proxy list.
use proxy_pool_architect.Base.{
  ℕ, ◌+◌, ◌-◌, ◌≤◌, ◌≡◌, refl, min, Option, some, ◌++◌, length, filter, length-slice, arith,
}
use proxy_pool_architect.Base.Slices.{take-all, slice-append}
use proxy_pool_architect.Base.Text.{Text}
use proxy_pool_architect.Types.Records.{ProxyListQuery}
use proxy_pool_architect.ProxyList.{filter_and_sort_proxies}
use proxy_pool_architect.ProxyList.Filtering.{matches, length-filter_and_sort_proxies}
use proxy_pool_architect.MockStore.{MockState, list_mock_proxies}

-- The query for a page.
abbrev pub page_of : ProxyListQuery → ℕ → ℕ → ProxyListQuery
page_of query limit offset = record query { limit = some limit; offset = some offset }

module _ (date_parse : Text → Option ℕ) (query : ProxyListQuery) (s : MockState) where
  -- A page holds as many proxies as fit from its offset on, and reports the number of all proxies that
  -- meet the query with its own limit and offset.
  pub list_mock_proxies-page :
      (limit offset : ℕ)
      → let page = list_mock_proxies date_parse (page_of query limit offset) s in
        (length page.items ≡ min limit (page.total - offset))
        × (page.total ≡ length (filter (matches query) s.proxies))
        × (page.limit ≡ limit)
        × (page.offset ≡ offset)
  unfolding list_mock_proxies
  list_mock_proxies-page limit offset = (
    length-slice offset limit _,
    length-filter_and_sort_proxies date_parse s.proxies query,
    refl,
    refl,
  )

  -- Two pages that follow one another are together the page of both limits, so consecutive pages
  -- neither repeat nor leave out a proxy.
  pub list_mock_proxies-append :
      (limit more offset : ℕ)
      → (list_mock_proxies date_parse (page_of query limit offset) s).items
          ++ (list_mock_proxies date_parse (page_of query more (offset + limit)) s).items
        ≡ (list_mock_proxies date_parse (page_of query (limit + more) offset) s).items
  unfolding list_mock_proxies
  list_mock_proxies-append limit more offset =
      slice-append offset limit more (filter_and_sort_proxies date_parse s.proxies query)

  -- A page from the start whose limit reaches the total is the whole filtered and sorted list.
  pub list_mock_proxies_whole :
      (limit : ℕ)
      → (list_mock_proxies date_parse query s).total ≤ limit
      → (list_mock_proxies date_parse (page_of query limit 0) s).items
        ≡ filter_and_sort_proxies date_parse s.proxies query
  unfolding list_mock_proxies
  list_mock_proxies_whole limit h = take-all _ _ (omega arith)
