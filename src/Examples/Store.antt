-- ===== src/Examples/Store.antt =====
-- The mock store of dashboard/src/lib/mock-data.ts at concrete states.
use proxy_pool_architect.Base.{ℕ, ◌+◌, ◌≡◌, refl}
use proxy_pool_architect.Base.Text.{Text, codes}
use proxy_pool_architect.Types.Unions.{ProxyUrlImportFileType}
use proxy_pool_architect.MockStore.{MockState, initial_mock_state, delete_mock_proxy}
use proxy_pool_architect.MockStore.Import.{submit_from_host}
use proxy_pool_architect.MockStore.Imports.{submit_from_host-counts}
use proxy_pool_architect.MockStore.Reachable.{
  HasUniqueIds, start, next, deleted, imported, Reach-HasUniqueIds,
}
use proxy_pool_architect.Examples.Samples.{three_stored}

abbrev same_date : ℕ → Text
same_date n = codes "2024-01-01"

submit_from_host-counts_example :
    let r = (submit_from_host (codes "example.org") ProxyUrlImportFileType.v2ray three_stored).0 in
    (r.stored_count + r.duplicate_count ≡ r.direct_supported_count)
    × (r.direct_supported_count + r.adapter_required_count ≡ r.valid_count)
    × (r.invalid_count ≡ 0)
    × (r.valid_count + r.unsupported_count + 2 ≡ r.fetched_count)
submit_from_host-counts_example =
    submit_from_host-counts (codes "example.org") ProxyUrlImportFileType.v2ray three_stored

abbrev imported_state : MockState
imported_state =
    (submit_from_host (codes "example.org") ProxyUrlImportFileType.http
      (initial_mock_state same_date)).1

Reach-HasUniqueIds_example :
    HasUniqueIds (delete_mock_proxy (codes "http-1.2.3.4-80") imported_state).1.proxies
Reach-HasUniqueIds_example = Reach-HasUniqueIds (
    next (next start (imported (codes "example.org") ProxyUrlImportFileType.http refl))
      (deleted (codes "http-1.2.3.4-80") refl))
