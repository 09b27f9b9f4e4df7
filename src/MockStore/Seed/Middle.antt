-- ===== src/MockStore/Seed/Middle.antt =====
-- dashboard/src/lib/mock-data.ts: the next proxies that the mock store starts with.
use proxy_pool_architect.Base.{ℕ, none, some, []}
use proxy_pool_architect.Base.Text.{Text, codes}
use proxy_pool_architect.Types.Unions.{ProxyPool, ProxyScheme, ProxyAnonymity}
use proxy_pool_architect.Types.Records.{ProxyEndpoint}
use proxy_pool_architect.MockStore.Create.{create_mock_proxy}

module _ (hours_ago : ℕ → Text) where
  unfoldable pub seed_7 : ProxyEndpoint
  unfolding create_mock_proxy
  seed_7 = create_mock_proxy none (record {
    id = [];
    scheme = ProxyScheme.https;
    host = codes "45.90.12.77";
    port = 443;
    auth_required = none;
    username = none;
    password = none;
    source = codes "paid_provider";
    country = some (codes "GB");
    asn = some (codes "AS9009");
    anonymity = ProxyAnonymity.elite;
    latency_ms = some 720;
    success_count = 41;
    fail_count = 2;
    consecutive_fail_count = none;
    score = 98;
    last_checked_at = some (hours_ago 1);
    last_success_at = some (hours_ago 1);
    last_error = none;
    cooldown_until = none;
    status = ProxyPool.elite;
  })

  unfoldable pub seed_8 : ProxyEndpoint
  unfolding create_mock_proxy
  seed_8 = create_mock_proxy none (record {
    id = [];
    scheme = ProxyScheme.http;
    host = codes "172.16.1.11";
    port = 8081;
    auth_required = none;
    username = none;
    password = none;
    source = codes "static_provider";
    country = some (codes "US");
    asn = some (codes "AS7922");
    anonymity = ProxyAnonymity.transparent;
    latency_ms = some 2410;
    success_count = 4;
    fail_count = 11;
    consecutive_fail_count = none;
    score = 21;
    last_checked_at = some (hours_ago 1);
    last_success_at = some (hours_ago 12);
    last_error = some (codes "Forwarded header leaked client address");
    cooldown_until = none;
    status = ProxyPool.dead;
  })

  unfoldable pub seed_9 : ProxyEndpoint
  unfolding create_mock_proxy
  seed_9 = create_mock_proxy none (record {
    id = [];
    scheme = ProxyScheme.socks5;
    host = codes "210.5.31.18";
    port = 1080;
    auth_required = none;
    username = none;
    password = none;
    source = codes "core_adapter:sing-box";
    country = some (codes "KR");
    asn = some (codes "AS4766");
    anonymity = ProxyAnonymity.elite;
    latency_ms = some 690;
    success_count = 21;
    fail_count = 1;
    consecutive_fail_count = none;
    score = 89;
    last_checked_at = some (hours_ago 6);
    last_success_at = some (hours_ago 6);
    last_error = none;
    cooldown_until = none;
    status = ProxyPool.checked;
  })

  unfoldable pub seed_10 : ProxyEndpoint
  unfolding create_mock_proxy
  seed_10 = create_mock_proxy none (record {
    id = [];
    scheme = ProxyScheme.http;
    host = codes "91.223.82.16";
    port = 3128;
    auth_required = none;
    username = none;
    password = none;
    source = codes "url_list_provider";
    country = some (codes "FR");
    asn = some (codes "AS3215");
    anonymity = ProxyAnonymity.anonymous;
    latency_ms = some 1360;
    success_count = 10;
    fail_count = 4;
    consecutive_fail_count = none;
    score = 67;
    last_checked_at = some (hours_ago 7);
    last_success_at = some (hours_ago 8);
    last_error = none;
    cooldown_until = none;
    status = ProxyPool.checked;
  })

  unfoldable pub seed_11 : ProxyEndpoint
  unfolding create_mock_proxy
  seed_11 = create_mock_proxy none (record {
    id = [];
    scheme = ProxyScheme.socks4;
    host = codes "185.14.31.90";
    port = 1088;
    auth_required = none;
    username = none;
    password = none;
    source = codes "freeproxy_provider";
    country = some (codes "SE");
    asn = some (codes "AS12552");
    anonymity = ProxyAnonymity.unknown;
    latency_ms = none;
    success_count = 0;
    fail_count = 0;
    consecutive_fail_count = none;
    score = 52;
    last_checked_at = none;
    last_success_at = none;
    last_error = none;
    cooldown_until = none;
    status = ProxyPool.raw;
  })

  unfoldable pub seed_12 : ProxyEndpoint
  unfolding create_mock_proxy
  seed_12 = create_mock_proxy none (record {
    id = [];
    scheme = ProxyScheme.http;
    host = codes "203.0.113.40";
    port = 8080;
    auth_required = none;
    username = none;
    password = none;
    source = codes "url_list_provider";
    country = some (codes "IN");
    asn = some (codes "AS4755");
    anonymity = ProxyAnonymity.anonymous;
    latency_ms = some 1880;
    success_count = 7;
    fail_count = 5;
    consecutive_fail_count = none;
    score = 54;
    last_checked_at = some (hours_ago 5);
    last_success_at = some (hours_ago 10);
    last_error = some (codes "Timeout while reaching test URL");
    cooldown_until = none;
    status = ProxyPool.cooldown;
  })
