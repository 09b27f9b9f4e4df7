-- ===== src/I18n/English/Proxies.antt =====
-- dashboard/src/i18n/translations.ts: the English texts of the overview and the proxies.
use proxy_pool_architect.Base.{List, [], ◌∷◌}
use proxy_pool_architect.Base.Text.{Text}
use proxy_pool_architect.I18n.Entries.{entry}

unfoldable pub en_proxies : List (Text × Text)
en_proxies =
    entry "overview.loadError" "Unexpected dashboard error"
    ∷ entry "overview.loading" "Loading dashboard data"
    ∷ entry "overview.noDataTitle" "No dashboard data"
    ∷ entry "overview.noDataMessage" "Mock overview payload is empty."
    ∷ entry "overview.poolCounts" "Proxy pool counts"
    ∷ entry "overview.rawProxies" "Raw proxies"
    ∷ entry "overview.rawDetail" "Awaiting validation"
    ∷ entry "overview.checkedProxies" "Checked proxies"
    ∷ entry "overview.checkedDetail" "Connectivity passed"
    ∷ entry "overview.eliteProxies" "Elite proxies"
    ∷ entry "overview.eliteDetail" "Highest quality pool"
    ∷ entry "overview.deadProxies" "Dead proxies"
    ∷ entry "overview.cooldownDetail" "{count} in cooldown"
    ∷ entry "overview.operationalSummary" "Operational summary"
    ∷ entry "overview.performance" "Performance"
    ∷ entry "overview.averageLatency" "Average latency"
    ∷ entry "overview.successRate" "Success rate"
    ∷ entry "overview.lastFetch" "Last fetch"
    ∷ entry "overview.lastValidation" "Last validation"
    ∷ entry "overview.liveUpdates" "Live updates"
    ∷ entry "overview.autoRefresh" "Refreshes every {seconds} seconds. Last updated: {updatedAt}"
    ∷ entry "overview.systemHealth" "System health"
    ∷ entry "overview.api" "API"
    ∷ entry "overview.database" "Database"
    ∷ entry "overview.scheduler" "Scheduler"
    ∷ entry "proxies.loadFilterError" "Unable to load filter options"
    ∷ entry "proxies.loadListError" "Unexpected proxy list error"
    ∷ entry "proxies.loadDetailError" "Unable to load proxy detail"
    ∷ entry "proxies.deleteMockFailure" "Mock delete did not remove the selected proxy"
    ∷ entry "proxies.deleteError" "Unable to delete the selected proxy"
    ∷ entry "proxies.zeroCount" "0 proxies"
    ∷ entry "proxies.listRange" "{start}-{end} of {total}"
    ∷ entry "proxies.filters" "Proxy filters"
    ∷ entry "proxies.pool" "Pool"
    ∷ entry "proxies.scheme" "Scheme"
    ∷ entry "proxies.anonymity" "Anonymity"
    ∷ entry "proxies.country" "Country"
    ∷ entry "proxies.source" "Source"
    ∷ entry "proxies.minScore" "Minimum score"
    ∷ entry "proxies.hostOrIp" "Host or IP"
    ∷ entry "proxies.allPools" "All pools"
    ∷ entry "proxies.allSchemes" "All schemes"
    ∷ entry "proxies.allTypes" "All types"
    ∷ entry "proxies.allCountries" "All countries"
    ∷ entry "proxies.allSources" "All sources"
    ∷ entry "proxies.searchPlaceholder" "Search host or proxy id"
    ∷ entry "proxies.resetFilters" "Reset filters"
    ∷ entry "proxies.inventory" "Proxy inventory"
    ∷ entry "proxies.paginationLabel" "Proxy pagination"
    ∷ entry "proxies.paginationPrevious" "Previous"
    ∷ entry "proxies.paginationNext" "Next"
    ∷ entry "proxies.paginationPage" "Page {page} / {totalPages}"
    ∷ entry "proxies.loadingInventory" "Loading proxy inventory"
    ∷ entry "proxies.emptyTitle" "No proxies matched the current filters"
    ∷ entry "proxies.emptyMessage" "Adjust the filter set or clear the search to see more records."
    ∷ entry "proxies.table.status" "Status"
    ∷ entry "proxies.table.scheme" "Scheme"
    ∷ entry "proxies.table.host" "Host"
    ∷ entry "proxies.table.port" "Port"
    ∷ entry "proxies.table.source" "Source"
    ∷ entry "proxies.table.country" "Country"
    ∷ entry "proxies.table.asn" "ASN"
    ∷ entry "proxies.table.anonymity" "Anonymity"
    ∷ entry "proxies.table.latency" "Latency"
    ∷ entry "proxies.table.score" "Score"
    ∷ entry "proxies.table.success" "Success"
    ∷ entry "proxies.table.fail" "Fail"
    ∷ entry "proxies.table.lastChecked" "Last checked"
    ∷ entry "proxies.table.lastError" "Last error"
    ∷ entry "proxies.table.actions" "Actions"
    ∷ entry "proxies.tableCaption" "Proxy inventory with status, endpoint, quality, and actions"
    ∷ entry "proxies.detail.title" "Proxy details"
    ∷ entry "proxies.detail.inspecting" "Inspecting selected proxy"
    ∷ entry "proxies.detail.loading" "Loading proxy details"
    ∷ entry "proxies.detail.emptyTitle" "No proxy selected"
    ∷ entry "proxies.detail.emptyMessage" "Pick a proxy row to inspect more detail."
    ∷ entry "proxies.detail.successFail" "Success / fail"
    ∷ entry "proxies.detail.lastSuccess" "Last success"
    ∷ entry "proxies.detail.authentication" "Authentication"
    ∷ entry "proxies.detail.authConfigured" "Configured and hidden"
    ∷ entry "proxies.detail.authNotRequired" "Not required"
    ∷ entry "proxies.detail.username" "Username"
    ∷ entry "proxies.detail.password" "Password"
    ∷ entry "proxies.detail.hidden" "Hidden"
    ∷ entry "proxies.detail.consecutiveFail" "Consecutive fail count"
    ∷ entry "proxies.detail.cooldownUntil" "Cooldown until"
    ∷ entry "proxies.detail.noRecentError" "No recent error"
    ∷ entry "proxies.deleteTitle" "Delete proxy"
    ∷ entry "proxies.deleteLiveMessage"
        "The selected proxy will be deleted through the backend API if the endpoint is available."
    ∷ entry "proxies.deleteMockMessage"
        "The selected proxy will be removed from the in-memory mock dataset."
    ∷ entry "proxies.deleteConfirm" "Delete proxy"
    ∷ []
