-- ===== src/I18n/English/Providers.antt =====
-- dashboard/src/i18n/translations.ts: the English texts of the geo data and the providers.
use proxy_pool_architect.Base.{List, [], ◌∷◌}
use proxy_pool_architect.Base.Text.{Text}
use proxy_pool_architect.I18n.Entries.{entry}

unfoldable pub en_providers : List (Text × Text)
en_providers =
    entry "geo.loadError" "Unable to load geo summary"
    ∷ entry "geo.loading" "Loading geo summary"
    ∷ entry "geo.emptyTitle" "No geo data available"
    ∷ entry "geo.emptyMessage" "No country or ASN records were returned."
    ∷ entry "geo.coverage" "Geo coverage"
    ∷ entry "geo.coverageDescription" "Coverage for country or ASN tagging in the current pool."
    ∷ entry "geo.coverageHint" "Geo enrichment is {status}. Geo file: {file}."
    ∷ entry "geo.coverageFile" "Geo file: {file}"
    ∷ entry "geo.totalProxies" "Total proxies"
    ∷ entry "geo.geoTagged" "Geo tagged"
    ∷ entry "geo.unresolved" "Unresolved"
    ∷ entry "geo.geoStatus" "Geo status"
    ∷ entry "geo.backendGeoEnabled" "Enabled"
    ∷ entry "geo.backendGeoDisabled" "Disabled"
    ∷ entry "geo.fileAvailable" "Geo file available"
    ∷ entry "geo.fileMissing" "Geo file missing"
    ∷ entry "geo.liveNote"
        "Live mode reads geo summaries from the backend and can derive them from proxy snapshots when the endpoint is unavailable."
    ∷ entry "geo.mockNote" "This page is currently backed by mock operational data."
    ∷ entry "geo.countryDistribution" "Country distribution"
    ∷ entry "geo.countryDescription" "Total proxies, elite count, and average latency by country."
    ∷ entry "geo.asnDistribution" "ASN distribution"
    ∷ entry "geo.asnDescription" "Top ASN groups from the current pool."
    ∷ entry "geo.latencyAnalysis" "Latency analysis"
    ∷ entry "geo.latencyDescription"
        "Average latency by country and ASN from the current backend summary."
    ∷ entry "geo.lowestLatency" "Lowest average latency"
    ∷ entry "geo.highestLatency" "Highest average latency"
    ∷ entry "geo.scope" "Scope"
    ∷ entry "geo.group" "Group"
    ∷ entry "geo.countryScope" "Country"
    ∷ entry "geo.asnScope" "ASN"
    ∷ entry "geo.noLatencyTitle" "No latency data"
    ∷ entry "geo.noLatencyMessage" "No country or ASN rows include average latency yet."
    ∷ entry "geo.total" "Total"
    ∷ entry "geo.elite" "Elite"
    ∷ entry "geo.averageLatency" "Average latency"
    ∷ entry "geo.stackSummary" "{total} total / {elite} elite / {latency}"
    ∷ entry "geo.asnTableCaption" "ASN distribution with totals, elite counts, and average latency"
    ∷ entry "geo.latencyTableCaption" "{title} by country and ASN"
    ∷ entry "geo.countryPaginationLabel" "Country pagination"
    ∷ entry "geo.asnPaginationLabel" "ASN pagination"
    ∷ entry "providers.loadError" "Unable to load provider summary"
    ∷ entry "providers.loading" "Loading provider status"
    ∷ entry "providers.emptyTitle" "No providers available"
    ∷ entry "providers.emptyMessage" "No provider records were returned."
    ∷ entry "providers.health" "Provider health"
    ∷ entry "providers.liveNote"
        "Live mode reads provider summaries from the backend and falls back to source-derived data only when needed."
    ∷ entry "providers.mockNote" "This page is currently backed by mock provider data."
    ∷ entry "providers.importTitle" "Import proxy URL"
    ∷ entry "providers.importDescription"
        "Fetch a remote proxy list file, normalize supported entries, and add unique proxies to the raw pool."
    ∷ entry "providers.importUrl" "Source URL"
    ∷ entry "providers.importUrlPlaceholder" "https://example.com/http.txt"
    ∷ entry "providers.importFileType" "File type"
    ∷ entry "providers.importDetectedFormat" "Detected format"
    ∷ entry "providers.importProtocols" "Detected protocols"
    ∷ entry "providers.importConnectionModes" "Connection support"
    ∷ entry "providers.fileType.http" "http.txt"
    ∷ entry "providers.fileType.socks5" "socks5.txt"
    ∷ entry "providers.fileType.all" "all.txt"
    ∷ entry "providers.fileType.auto" "Auto detect"
    ∷ entry "providers.fileType.clash" "Clash / FlClash"
    ∷ entry "providers.fileType.v2ray" "V2Ray / Xray"
    ∷ entry "providers.detectedFormat.plain_text" "Plain text list"
    ∷ entry "providers.detectedFormat.clash_yaml" "Clash YAML"
    ∷ entry "providers.detectedFormat.v2ray_uri_list" "V2Ray URI list"
    ∷ entry "providers.detectedFormat.base64_uri_list" "Base64 URI list"
    ∷ entry "providers.connectionMode.direct" "Direct"
    ∷ entry "providers.connectionMode.core_adapter" "Core adapter"
    ∷ entry "providers.importSubmit" "Fetch and import"
    ∷ entry "providers.importError" "Unable to import proxies from the submitted URL"
    ∷ entry "providers.importSuccess" "{count} proxies stored in the raw pool."
    ∷ entry "providers.importFetched" "Fetched"
    ∷ entry "providers.importValid" "Valid"
    ∷ entry "providers.importStored" "Stored"
    ∷ entry "providers.importDirect" "Direct supported"
    ∷ entry "providers.importAdapter" "Adapter required"
    ∷ entry "providers.importDuplicates" "Duplicates"
    ∷ entry "providers.importInvalid" "Invalid"
    ∷ entry "providers.importUnsupported" "Unsupported"
    ∷ entry "providers.importAdapterHint"
        "Advanced nodes such as VMess, VLESS, Trojan, Shadowsocks, Hysteria, and TUIC require a configured local core adapter before they can be used as pool endpoints."
    ∷ entry "providers.inventory" "Provider inventory"
    ∷ entry "providers.description"
        "Enabled status, fetch counts, valid counts, and the most recent error signal."
    ∷ entry "providers.name" "Name"
    ∷ entry "providers.status" "Status"
    ∷ entry "providers.lastFetch" "Last fetch"
    ∷ entry "providers.fetchedCount" "Fetched count"
    ∷ entry "providers.validCount" "Valid count"
    ∷ entry "providers.errorSummary" "Error summary"
    ∷ entry "providers.tableCaption"
        "Provider inventory with status, fetch counts, valid counts, and errors"
    ∷ entry "providers.paginationLabel" "Provider pagination"
    ∷ []
