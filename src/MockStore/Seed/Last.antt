-- ===== src/MockStore/Seed/Last.antt =====
-- dashboard/src/lib/mock-data.ts: the last proxies that the mock store starts with.
use proxy_pool_architect.Base.{ℕ, none, some, []}
use proxy_pool_architect.Base.Text.{Text, codes}
use proxy_pool_architect.Types.Unions.{ProxyPool, ProxyScheme, ProxyAnonymity}
use proxy_pool_architect.Types.Records.{ProxyEndpoint}
use proxy_pool_architect.MockStore.Create.{create_mock_proxy}

module _ (hours_ago : ℕ → Text) where
  unfoldable pub seed_13 : ProxyEndpoint
  unfolding create_mock_proxy
  seed_13 = create_mock_proxy none (record {
    id = [];
    scheme = ProxyScheme.https;
    host = codes "198.51.100.20";
    port = 9443;
    auth_required = none;
    username = some (codes "ops-eu");
    password = some (codes "ops-eu-secret");
    source = codes "paid_provider";
    country = some (codes "CA");
    asn = some (codes "AS852");
    anonymity = ProxyAnonymity.elite;
    latency_ms = some 770;
    success_count = 14;
    fail_count = 1;
    consecutive_fail_count = none;
    score = 90;
    last_checked_at = some (hours_ago 3);
    last_success_at = some (hours_ago 3);
    last_error = none;
    cooldown_until = none;
    status = ProxyPool.elite;
  })

  unfoldable pub seed_14 : ProxyEndpoint
  unfolding create_mock_proxy
  seed_14 = create_mock_proxy none (record {
    id = [];
    scheme = ProxyScheme.socks5;
    host = codes "203.12.19.88";
    port = 1080;
    auth_required = none;
    username = none;
    password = none;
    source = codes "clash_subscription";
    country = some (codes "AU");
    asn = some (codes "AS1221");
    anonymity = ProxyAnonymity.anonymous;
    latency_ms = some 1010;
    success_count = 9;
    fail_count = 2;
    consecutive_fail_count = none;
    score = 71;
    last_checked_at = some (hours_ago 9);
    last_success_at = some (hours_ago 9);
    last_error = none;
    cooldown_until = none;
    status = ProxyPool.checked;
  })

  unfoldable pub seed_15 : ProxyEndpoint
  unfolding create_mock_proxy
  seed_15 = create_mock_proxy none (record {
    id = [];
    scheme = ProxyScheme.http;
    host = codes "10.0.10.8";
    port = 8899;
    auth_required = none;
    username = none;
    password = none;
    source = codes "self_hosted";
    country = some (codes "US");
    asn = some (codes "AS7018");
    anonymity = ProxyAnonymity.elite;
    latency_ms = some 430;
    success_count = 63;
    fail_count = 4;
    consecutive_fail_count = none;
    score = 99;
    last_checked_at = some (hours_ago 1);
    last_success_at = some (hours_ago 1);
    last_error = none;
    cooldown_until = none;
    status = ProxyPool.elite;
  })

  unfoldable pub seed_16 : ProxyEndpoint
  unfolding create_mock_proxy
  seed_16 = create_mock_proxy none (record {
    id = [];
    scheme = ProxyScheme.socks5;
    host = codes "121.56.22.9";
    port = 2080;
    auth_required = none;
    username = none;
    password = none;
    source = codes "freeproxy_provider";
    country = some (codes "BR");
    asn = some (codes "AS28573");
    anonymity = ProxyAnonymity.unknown;
    latency_ms = none;
    success_count = 1;
    fail_count = 8;
    consecutive_fail_count = none;
    score = 32;
    last_checked_at = some (hours_ago 11);
    last_success_at = some (hours_ago 26);
    last_error = some (codes "Connection refused");
    cooldown_until = none;
    status = ProxyPool.dead;
  })

  unfoldable pub seed_17 : ProxyEndpoint
  unfolding create_mock_proxy
  seed_17 = create_mock_proxy none (record {
    id = [];
    scheme = ProxyScheme.https;
    host = codes "45.77.18.61";
    port = 443;
    auth_required = none;
    username = none;
    password = none;
    source = codes "core_adapter:mihomo";
    country = some (codes "US");
    asn = some (codes "AS20473");
    anonymity = ProxyAnonymity.elite;
    latency_ms = some 560;
    success_count = 18;
    fail_count = 1;
    consecutive_fail_count = none;
    score = 92;
    last_checked_at = some (hours_ago 2);
    last_success_at = some (hours_ago 2);
    last_error = none;
    cooldown_until = none;
    status = ProxyPool.checked;
  })

  unfoldable pub seed_18 : ProxyEndpoint
  unfolding create_mock_proxy
  seed_18 = create_mock_proxy none (record {
    id = [];
    scheme = ProxyScheme.http;
    host = codes "154.18.90.22";
    port = 8088;
    auth_required = none;
    username = none;
    password = none;
    source = codes "url_list_provider";
    country = some (codes "ZA");
    asn = some (codes "AS3741");
    anonymity = ProxyAnonymity.transparent;
    latency_ms = some 2790;
    success_count = 3;
    fail_count = 9;
    consecutive_fail_count = none;
    score = 24;
    last_checked_at = some (hours_ago 6);
    last_success_at = some (hours_ago 16);
    last_error = some (codes "Proxy added Via header");
    cooldown_until = none;
    status = ProxyPool.dead;
  })
