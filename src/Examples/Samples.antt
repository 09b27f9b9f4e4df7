-- ===== src/Examples/Samples.antt =====
-- Concrete inputs: three proxies, their queries, and servers that know every path or none.
use proxy_pool_architect.Base.{ℕ, true, false, Option, none, some, List, [], ◌∷◌}
use proxy_pool_architect.Base.Text.{Text, codes}
use proxy_pool_architect.Effects.{js_error, ok, err}
use proxy_pool_architect.Types.Unions.{ProxyPool, ProxyScheme, ProxyAnonymity}
use proxy_pool_architect.Types.Records.{ProxyEndpoint, ProxyListQuery, DashboardSettings}
use proxy_pool_architect.Format.Digits.{read_from}
use proxy_pool_architect.MockStore.{MockState}
use proxy_pool_architect.ApiClient.Http.{Response, Race, answered}
use proxy_pool_architect.ApiClient.Live.{LiveProxyResponse, LiveProxyListResponse}
use proxy_pool_architect.ApiClient.Call.{ClientState, Server}
use proxy_pool_architect.ApiClient.Client.{Environment}

-- Dates are plain numbers here.
abbrev pub read_date : Text → Option ℕ
read_date text = some (read_from 0 text)

abbrev pub endpoint : Text → ProxyScheme → Text → Text → ℕ → Text → ProxyEndpoint
endpoint id scheme source country score checked = record {
  id = id;
  scheme = scheme;
  host = codes "10.0.0.1";
  port = 8080;
  auth_required = some false;
  username = none;
  password = none;
  source = source;
  country = some country;
  asn = some (codes "AS1");
  anonymity = ProxyAnonymity.elite;
  latency_ms = some score;
  success_count = 1;
  fail_count = 0;
  consecutive_fail_count = some 0;
  score = score;
  last_checked_at = some checked;
  last_success_at = none;
  last_error = none;
  cooldown_until = none;
  status = ProxyPool.elite;
}

abbrev pub first_proxy : ProxyEndpoint
first_proxy = endpoint (codes "a") ProxyScheme.http (codes "tor") (codes "DE") 70 (codes "5")

abbrev pub second_proxy : ProxyEndpoint
second_proxy = endpoint (codes "b") ProxyScheme.socks5 (codes "tor") (codes "FR") 90 (codes "3")

abbrev pub third_proxy : ProxyEndpoint
third_proxy = endpoint (codes "c") ProxyScheme.http (codes "list") (codes "DE") 70 (codes "8")

abbrev pub three_proxies : List ProxyEndpoint
three_proxies = first_proxy ∷ second_proxy ∷ third_proxy ∷ []

abbrev pub any_query : ProxyListQuery
any_query = record {
  pool = none;
  scheme = none;
  anonymity = none;
  country = none;
  source = none;
  min_score = none;
  q = none;
  limit = none;
  offset = none;
}

abbrev pub http_query : ProxyListQuery
http_query = record any_query { scheme = some ProxyScheme.http; min_score = some 60 }

abbrev pub some_settings : DashboardSettings
some_settings = record {
  fetch_interval_seconds = 60;
  validate_interval_seconds = 30;
  validate_timeout_seconds = 5;
  validate_concurrency = 10;
  min_elite_score = 75;
  cooldown_seconds = 100;
  safe_networking = record {
    authorized_targets_only = true;
    block_private_networks = true;
    mask_proxy_credentials = false;
  };
}

abbrev pub three_stored : MockState
three_stored = record { proxies = three_proxies; settings = some_settings }

abbrev pub no_state : ClientState
no_state = record { cache = []; mock = three_stored; sent = [] }

abbrev pub known_state : ClientState
known_state = record no_state { cache = (codes "a", first_proxy) ∷ [] }

abbrev pub browser : Environment
browser = record {
  date_parse = read_date;
  hours_ago = λ n. codes "1";
  now = codes "2";
  hostname = λ url. some (codes "example.org");
}

abbrev pub with_text : {T : Type 0} → ℕ → Text → Response T
with_text status text = record {
  status = status;
  content_type = some (codes "text/plain");
  as_json = err (js_error (codes "no json"));
  as_detail = ok none;
  as_text = ok text;
  reread = codes "body stream already read";
}

abbrev pub says : {T : Type 0} → T → Race T
says payload = answered (record {
  status = 200;
  content_type = some (codes "application/json");
  as_json = ok payload;
  as_detail = ok none;
  as_text = ok [];
  reread = codes "body stream already read";
})

abbrev pub not_found : {T : Type 0} → Race T
not_found = answered (with_text 404 (codes "gone"))

-- A server that has none of the paths.
abbrev pub empty_server : Server
empty_server = record {
  auth = λ sent r. not_found;
  health = λ sent r. not_found;
  stats = λ sent r. not_found;
  proxies = λ sent r. not_found;
  proxy = λ sent r. not_found;
  deletion = λ sent r. not_found;
  url_import = λ sent r. not_found;
  geo = λ sent r. not_found;
  providers = λ sent r. not_found;
  jobs = λ sent r. not_found;
  events = λ sent r. not_found;
  settings = λ sent r. not_found;
  health_rejects_first = λ sent. true;
}

abbrev pub live_proxy : LiveProxyResponse
live_proxy = record {
  id = codes "a";
  scheme = ProxyScheme.http;
  host = codes "10.0.0.1";
  port = 8080;
  auth_required = false;
  source = codes "tor";
  country = some (codes "DE");
  asn = none;
  anonymity = ProxyAnonymity.elite;
  latency_ms = some 120;
  success_count = 3;
  fail_count = 1;
  consecutive_fail_count = 0;
  score = 80;
  last_checked_at = none;
  last_success_at = none;
  last_error = none;
  cooldown_until = none;
  status = ProxyPool.elite;
}

abbrev pub live_list : LiveProxyListResponse
live_list = record {
  items = some (live_proxy ∷ []);
  total = some 1;
  proxies = none;
  count = none;
  limit = 500;
  offset = 0;
}

-- A server that can list its proxies and delete them, and nothing else.
abbrev pub listing_server : Server
listing_server = record empty_server {
  proxies = λ sent r. says live_list;
  deletion = λ sent r. says (record { proxy_id = codes "a"; deleted = true });
}

-- One whose answer for the geo summary is a JSON error without a detail.
abbrev pub terse_response : {T : Type 0} → Response T
terse_response = record {
  status = 404;
  content_type = some (codes "application/json");
  as_json = err (js_error (codes "no json"));
  as_detail = ok none;
  as_text = ok [];
  reread = codes "body stream already read";
}

abbrev pub terse_server : Server
terse_server = record listing_server { geo = λ sent r. answered terse_response }
