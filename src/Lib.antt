-- ===== src/Lib.antt =====
-- The dashboard of the proxy pool (dashboard/src) and what makes its logic correct.
--
-- The dashboard is a web client. Its pages ask an API client for proxies, summaries, jobs, events and
-- settings. The client runs in one of two modes: in the live mode it sends requests to the service and
-- keeps a cache of proxies; in the mock mode it serves all calls from a store in memory. What neither
-- the service nor the store has at hand, the client derives from a list of proxies.
--
-- Base and the modules below it hold tests, lists, texts (as UTF-16 code units), a stable sort,
-- grouping and rounding. Effects has the results and exceptions of asynchronous functions.
-- Each other file translates the source that it names:
--   Types.Unions, Types.Records: dashboard/src/types.ts.
--   ProxyList: filterAndSortProxies and collectProxyFilterOptions of dashboard/src/lib/proxy-list.ts;
--     Filtering, Ordering and Options below it hold the theorems.
--   Derive: averageLatency, deriveGeoSummary and deriveProviderSummaries of
--     dashboard/src/lib/dashboard-derive.ts; theorems in Latency, Grouping, Geo and Providers.
--   Format: dashboard/src/lib/format.ts; theorems in Digits and Masking.
--   Navigation: dashboard/src/navigation.ts; theorems in Routes.
--   I18n: dashboard/src/i18n/I18nContext.tsx, with the bundles of translations.ts in I18n.English and
--     I18n.Chinese; theorems in Bundles, Labels, Interpolation and Languages.
--   MockStore: dashboard/src/lib/mock-data.ts. MockState has the two variables that the module writes,
--     mockProxyStore and mockSettings; Seed has the first proxies, Activity the constant data, Create
--     createMockProxy, Import submitMockProxyUrl; theorems in Paging, Deletion, Imports, Reachable
--     and Catalogue, which is the abstract view of the store by ids.
--   ApiClient: dashboard/src/lib/api-client.ts. Http is fetchJson from the end of its race on, Live
--     and Normalize the payloads, Requests the paths and bodies, Call the effects, Loading what the
--     methods share, Client the methods of createDashboardApiClient, Operations their effect on the
--     state; theorems in Errors, Params, Cache, Modes, Fallbacks, Agreement (of the two modes), Overlap
--     (of calls in time) and, for all methods at once, Keeping and Stable. Defaults reads the build's variables.
--   App: dashboard/src/App.tsx, the session gate, route and theme; theorems in App.Gate. App.Shell is
--     dashboard/src/components/layout/AppShell.tsx, its navigation and top bar; theorems in Links.
--   Preferences: the language and the theme in the browser's storage, by the effects of
--     dashboard/src/i18n/I18nContext.tsx and dashboard/src/App.tsx; theorems in Stored.
--   Pages: a module for each page of dashboard/src/pages, with its theorems below it (components/ is
--     dashboard/src/components):
--     Login (LoginPage.tsx as App.tsx mounts it; Flow), Overview (OverviewPage.tsx; Guard), Geo
--     (GeoPage.tsx; Paging), Logs (LogsPage.tsx; Fresh and Settling), Settings (SettingsPage.tsx;
--     Fields and Saving), Validation (ValidationPage.tsx, with the page's load in Screen; Errors and
--     Fresh), Providers (ProvidersPage.tsx with components/providers/ProviderUrlImportForm.tsx;
--     Results and Paging), Latency (components/geo/LatencyAnalysisPanel.tsx; Order).
--     Proxies is ProxiesPage.tsx with confirmDelete in one run (Deletion), and its list message in
--     Message; Proxies.Session is the same page with its effects and with waits that overlap (Steps,
--     Fresh, Ending and Race); Proxies.Filters and Proxies.Drawer are components/proxies/ProxyFilters.tsx
--     (Choices) and components/proxies/ProxyDetailDrawer.tsx (Hiding).
--     Markdown is components/doc/MarkdownRenderer.tsx: escapeHtml, the regular expressions of inline in
--     Inline, the blocks and the loop of renderMarkdown in Lines and Blocks. Tags and Spans say what a
--     tag of the renderer is and which pieces a text may be put together from; Safety, Elements and
--     Rendering are on the tags of inline, of the elements and of documents; Escaping, Verbatim and Fuel
--     on what is kept as it is and on enough fuel.
--     Doc is DocPage.tsx with the documents of dashboard/src/docs/api-docs.ts, line by line, in Chinese
--     and English; Nesting is on what it renders, Endpoints on the requests of the client in it.
--   Examples: runs of the definitions and the theorems at concrete inputs.
--
-- State is passed explicitly: a method of the client is a function from the state (proxy cache, mock
-- store, requests sent so far) to its result and the state after it. A map is a list of its entries in
-- insertion order, the cache one with the newest first. The server, the clock, Date.parse, the URL
-- parser and the formats of Intl are parameters. The server answers a request by the requests that
-- were sent before, and may let it fail or time out.
--
-- Numbers are natural numbers without an upper bound: scores, counts and milliseconds of the program
-- are far below 2^53, up to which its numbers are exact. A success rate is the ratio that it comes
-- from. The digits of a number are computed on fuel one above the number, which is enough, since each
-- step divides by ten. The loads of the log page are run on fuel that is at least the page, which is
-- enough, since each step goes back by a page. The Markdown loop runs on fuel that is the number of
-- lines, since each round takes a line at least; a replacement by a regular expression runs on the length
-- of its text, since each step takes a character at least. All other functions are recursive on a list
-- or a text. What the program reads by `Number` in a text of the filters or of the settings is a
-- parameter, into the natural numbers.
--
-- A component with effects is its state with a function for each handler and each part of a load
-- between two waits; a step relation lets them happen in any order.
--
-- Not modelled: markup and styles; delays of the mock store, which change no value; calls of the client
-- that overlap, but for what they write to the cache (Overlap); the percent-encoding of a path; letters
-- outside ASCII in lower-casing; numbers below zero or with a fraction in the settings. The service in
-- app/ is the server that the client's model takes as a parameter.
pub mod Base
pub mod Effects
pub mod Types
pub mod ProxyList
pub mod Derive
pub mod Format
pub mod Navigation
pub mod I18n
pub mod MockStore
pub mod ApiClient
pub mod App
pub mod Preferences
pub mod Pages
pub mod Examples
