-- ===== src/MockStore/Seed/First.antt =====
-- dashboard/src/lib/mock-data.ts: the first proxies that the mock store starts with.
use proxy_pool_architect.Base.{ℕ, none, some, []}
use proxy_pool_architect.Base.Text.{Text, codes}
use proxy_pool_architect.Types.Unions.{ProxyPool, ProxyScheme, ProxyAnonymity}
use proxy_pool_architect.Types.Records.{ProxyEndpoint}
use proxy_pool_architect.MockStore.Create.{create_mock_proxy}

module _ (hours_ago : ℕ → Text) where
  unfoldable pub seed_1 : ProxyEndpoint
  unfolding create_mock_proxy
  seed_1 = create_mock_proxy none (record {
    id = [];
    scheme = ProxyScheme.socks5;
    host = codes "1.2.3.4";
    port = 1080;
    auth_required = none;
    username = some (codes "svc-east");
    password = some (codes "secret-east");
    source = codes "core_adapter:mihomo";
    country = some (codes "US");
    asn = some (codes "AS12345");
    anonymity = ProxyAnonymity.elite;
    latency_ms = some 820;
    success_count = 12;
    fail_count = 1;
    consecutive_fail_count = none;
    score = 91;
    last_checked_at = some (hours_ago 1);
    last_success_at = some (hours_ago 1);
    last_error = none;
    cooldown_until = none;
    status = ProxyPool.elite;
  })

  unfoldable pub seed_2 : ProxyEndpoint
  unfolding create_mock_proxy
  seed_2 = create_mock_proxy none (record {
    id = [];
    scheme = ProxyScheme.http;
    host = codes "8.8.4.2";
    port = 8080;
    auth_required = none;
    username = none;
    password = none;
    source = codes "url_list_provider";
    country = some (codes "DE");
    asn = some (codes "AS3320");
    anonymity = ProxyAnonymity.anonymous;
    latency_ms = some 1130;
    success_count = 16;
    fail_count = 3;
    consecutive_fail_count = none;
    score = 79;
    last_checked_at = some (hours_ago 2);
    last_success_at = some (hours_ago 2);
    last_error = none;
    cooldown_until = none;
    status = ProxyPool.checked;
  })

  unfoldable pub seed_3 : ProxyEndpoint
  unfolding create_mock_proxy
  seed_3 = create_mock_proxy none (record {
    id = [];
    scheme = ProxyScheme.https;
    host = codes "34.76.12.10";
    port = 8443;
    auth_required = none;
    username = none;
    password = none;
    source = codes "static_provider";
    country = some (codes "SG");
    asn = some (codes "AS15169");
    anonymity = ProxyAnonymity.elite;
    latency_ms = some 640;
    success_count = 28;
    fail_count = 0;
    consecutive_fail_count = none;
    score = 95;
    last_checked_at = some (hours_ago 3);
    last_success_at = some (hours_ago 3);
    last_error = none;
    cooldown_until = none;
    status = ProxyPool.elite;
  })

  unfoldable pub seed_4 : ProxyEndpoint
  unfolding create_mock_proxy
  seed_4 = create_mock_proxy none (record {
    id = [];
    scheme = ProxyScheme.socks4;
    host = codes "77.91.72.8";
    port = 9050;
    auth_required = none;
    username = none;
    password = none;
    source = codes "tor";
    country = some (codes "NL");
    asn = some (codes "AS60781");
    anonymity = ProxyAnonymity.anonymous;
    latency_ms = some 1580;
    success_count = 8;
    fail_count = 6;
    consecutive_fail_count = none;
    score = 58;
    last_checked_at = some (hours_ago 4);
    last_success_at = some (hours_ago 5);
    last_error = some (codes "High latency during validation");
    cooldown_until = none;
    status = ProxyPool.checked;
  })

  unfoldable pub seed_5 : ProxyEndpoint
  unfolding create_mock_proxy
  seed_5 = create_mock_proxy none (record {
    id = [];
    scheme = ProxyScheme.http;
    host = codes "103.44.19.7";
    port = 8000;
    auth_required = none;
    username = none;
    password = none;
    source = codes "url_list_provider";
    country = some (codes "JP");
    asn = some (codes "AS2516");
    anonymity = ProxyAnonymity.unknown;
    latency_ms = none;
    success_count = 0;
    fail_count = 0;
    consecutive_fail_count = none;
    score = 50;
    last_checked_at = none;
    last_success_at = none;
    last_error = none;
    cooldown_until = none;
    status = ProxyPool.raw;
  })

  unfoldable pub seed_6 : ProxyEndpoint
  unfolding create_mock_proxy
  seed_6 = create_mock_proxy none (record {
    id = [];
    scheme = ProxyScheme.socks5;
    host = codes "61.19.42.200";
    port = 1080;
    auth_required = none;
    username = none;
    password = none;
    source = codes "clash_subscription";
    country = some (codes "HK");
    asn = some (codes "AS9304");
    anonymity = ProxyAnonymity.elite;
    latency_ms = some 540;
    success_count = 34;
    fail_count = 2;
    consecutive_fail_count = none;
    score = 96;
    last_checked_at = some (hours_ago 2);
    last_success_at = some (hours_ago 2);
    last_error = none;
    cooldown_until = none;
    status = ProxyPool.elite;
  })
