-- ===== src/MockStore/Import.antt =====
-- dashboard/src/lib/mock-data.ts: `submitMockProxyUrl`, the import of a URL by the mock.
use proxy_pool_architect.Base.{
  ℕ, ◌+◌, ◌-◌, Bool, true, false, not, Option, none, some, List, [], ◌∷◌, ◌++◌, map, filter, length,
  ltb, if◌then◌else◌,
}
use proxy_pool_architect.Base.Text.{Text, codes, truthy, has}
use proxy_pool_architect.Effects.{js_error, Result, ok, err}
use proxy_pool_architect.Types.Unions.{
  ProxyUrlImportFileType, auto, socks5, clash, v2ray, ProxyUrlImportDetectedFormat,
  ProxyUrlImportConnectionMode, ProxyScheme, ProxyAnonymity, ProxyPool, file_type_text,
}
use proxy_pool_architect.Types.Records.{ProxyEndpoint, ProxyUrlImportResult}
use proxy_pool_architect.MockStore.Create.{create_mock_proxy}
use proxy_pool_architect.MockStore.{MockState}

abbrev new_proxy : ProxyScheme → Text → ℕ → Text → Text → Text → ProxyEndpoint
new_proxy scheme host port source country asn = record {
  id = [];
  scheme = scheme;
  host = host;
  port = port;
  auth_required = none;
  username = none;
  password = none;
  source = source;
  country = some country;
  asn = some asn;
  anonymity = ProxyAnonymity.unknown;
  latency_ms = none;
  success_count = 0;
  fail_count = 0;
  consecutive_fail_count = none;
  score = 0;
  last_checked_at = none;
  last_success_at = none;
  last_error = none;
  cooldown_until = none;
  status = ProxyPool.raw;
}

abbrev is_socks5 : ProxyUrlImportFileType → Bool
is_socks5 socks5 = true
is_socks5 _ = false

unfoldable pub direct_imported : ProxyUrlImportFileType → Text → List ProxyEndpoint
unfolding create_mock_proxy
direct_imported file_type source =
    create_mock_proxy none (
      new_proxy (if is_socks5 file_type then ProxyScheme.socks5 else ProxyScheme.http)
        (codes "11.22.33.44") (if is_socks5 file_type then 1080 else 8080) source (codes "US")
        (codes "AS64500"))
    ∷ create_mock_proxy none (
        new_proxy ProxyScheme.https (codes "55.66.77.88") 8443 source (codes "SG")
          (codes "AS15169"))
    ∷ []

abbrev pub adapter_required_count : ProxyUrlImportFileType → ℕ
adapter_required_count v2ray = 3
adapter_required_count clash = 2
adapter_required_count auto = 1
adapter_required_count _ = 0

abbrev pub unsupported_count : ProxyUrlImportFileType → ℕ
unsupported_count clash = 1
unsupported_count _ = 0

unfoldable pub imported_proxies : ProxyUrlImportFileType → Text → List ProxyEndpoint
unfolding direct_imported
imported_proxies v2ray source = []
imported_proxies file_type source = direct_imported file_type source

abbrev detected_format : ProxyUrlImportFileType → ProxyUrlImportDetectedFormat
detected_format clash = ProxyUrlImportDetectedFormat.clash_yaml
detected_format v2ray = ProxyUrlImportDetectedFormat.base64_uri_list
detected_format _ = ProxyUrlImportDetectedFormat.plain_text

abbrev detected_protocols : ProxyUrlImportFileType → List Text
detected_protocols v2ray = codes "trojan" ∷ codes "vless" ∷ codes "vmess" ∷ []
detected_protocols clash = codes "http" ∷ codes "socks5" ∷ codes "trojan" ∷ codes "vmess" ∷ []
detected_protocols socks5 = codes "socks5" ∷ []
detected_protocols _ = codes "http" ∷ codes "https" ∷ []

abbrev pub ids : List ProxyEndpoint → List Text
ids = map (λ proxy. proxy.id)

abbrev pub unique_imported : List ProxyEndpoint → List ProxyEndpoint → List ProxyEndpoint
unique_imported imported stored = filter (λ proxy. not (has proxy.id (ids stored))) imported

abbrev pub import_source : ProxyUrlImportFileType → Text → Text
import_source file_type host =
    codes "url_submit:"
    ++ (file_type_text file_type ++ b':' ∷ (if truthy host then host else codes "mock.local"))

-- The import once the host of the URL is known.
unfoldable pub submit_from_host :
    Text → ProxyUrlImportFileType → MockState → ProxyUrlImportResult × MockState
unfolding imported_proxies
submit_from_host host file_type s =
    let source = import_source file_type host in
    let direct = direct_imported file_type source in
    let imported = imported_proxies file_type source in
    let stored = unique_imported imported s.proxies in
    let adapter = adapter_required_count file_type in
    let unsupported = unsupported_count file_type in
    (
      record {
        source = source;
        file_type = file_type;
        detected_format = detected_format file_type;
        fetched_count = length direct + adapter + unsupported;
        valid_count = length imported + adapter;
        stored_count = length stored;
        duplicate_count = length imported - length stored;
        invalid_count = 0;
        direct_supported_count = length imported;
        adapter_required_count = adapter;
        unsupported_count = unsupported;
        detected_protocols = detected_protocols file_type;
        supported_connection_modes =
            (if ltb 0 (length imported) then ProxyUrlImportConnectionMode.direct ∷ [] else [])
            ++ (if ltb 0 adapter then ProxyUrlImportConnectionMode.core_adapter ∷ [] else []);
      },
      record s { proxies = stored ++ s.proxies },
    )

unfoldable pub submit_mock_proxy_url :
    (Text → Option Text)
    → Text
    → ProxyUrlImportFileType
    → MockState
    → Result ProxyUrlImportResult × MockState
unfolding submit_from_host
submit_mock_proxy_url hostname url file_type s = elim (hostname url) [
  | none ↦ (err (js_error (codes "Invalid URL")), s)
  | some host ↦ let (result, s') = submit_from_host host file_type s in (ok result, s')
]
