-- ===== src/MockStore/Create.antt =====
-- dashboard/src/lib/mock-data.ts: how the mock makes a proxy.
use proxy_pool_architect.Base.{ℕ, ◌||◌, Option, some, ◌∷◌, ◌++◌, or_else, is_some}
use proxy_pool_architect.Base.Text.{Text, non_empty}
use proxy_pool_architect.Types.Unions.{scheme_text}
use proxy_pool_architect.Types.Records.{ProxyEndpoint}
use proxy_pool_architect.Format.{decimal}

unfoldable pub create_proxy_id : Text → Text → ℕ → Text
unfolding decimal
create_proxy_id scheme host port = scheme ++ (b'-' ∷ host ++ b'-' ∷ decimal port)

-- `Omit<ProxyEndpoint, "id"> & { id?: string }` is the id that may be given and a proxy whose own id
-- is not read.
unfoldable pub create_mock_proxy : Option Text → ProxyEndpoint → ProxyEndpoint
unfolding create_proxy_id
create_mock_proxy id proxy = record proxy {
  auth_required = some (
      or_else proxy.auth_required
        (is_some (non_empty proxy.username) || is_some (non_empty proxy.password)));
  id = or_else id (create_proxy_id (scheme_text proxy.scheme) proxy.host proxy.port);
}
