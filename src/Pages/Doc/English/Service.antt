-- ===== src/Pages/Doc/English/Service.antt =====
-- dashboard/src/docs/api-docs.ts: the English document on the rest of the service.
use proxy_pool_architect.Base.{List, [], ◌∷◌}
use proxy_pool_architect.Base.Text.{Text, codes}

unfoldable pub en_service : List Text
en_service =
    codes "## Stats"
    ∷ []
    ∷ codes "```"
    ∷ codes "GET /api/stats"
    ∷ codes "```"
    ∷ []
    ∷ codes "---"
    ∷ []
    ∷ codes "## Health"
    ∷ []
    ∷ codes "```"
    ∷ codes "GET /api/health"
    ∷ codes "```"
    ∷ []
    ∷ codes "---"
    ∷ []
    ∷ codes "## Providers"
    ∷ []
    ∷ codes "```"
    ∷ codes "GET  /api/providers"
    ∷ codes "GET  /api/providers/{name}"
    ∷ codes "POST /api/providers/import-url"
    ∷ codes "```"
    ∷ []
    ∷ codes "---"
    ∷ []
    ∷ codes "## Geo"
    ∷ []
    ∷ codes "```"
    ∷ codes "GET /api/geo/summary"
    ∷ codes "```"
    ∷ []
    ∷ codes "---"
    ∷ []
    ∷ codes "## Validation Jobs"
    ∷ []
    ∷ codes "```"
    ∷ codes "GET  /api/validation/jobs?limit=50&offset=0"
    ∷ codes "POST /api/validation/run?limit=100"
    ∷ codes "```"
    ∷ []
    ∷ codes "---"
    ∷ []
    ∷ codes "## Events"
    ∷ []
    ∷ codes "```"
    ∷ codes "GET /api/events?limit=50&offset=0"
    ∷ codes "```"
    ∷ []
    ∷ codes "---"
    ∷ []
    ∷ codes "## Settings"
    ∷ []
    ∷ codes "```"
    ∷ codes "GET   /api/settings"
    ∷ codes "PATCH /api/settings"
    ∷ codes "```"
    ∷ []
    ∷ codes "---"
    ∷ []
    ∷ codes "## Auth"
    ∷ []
    ∷ codes "```"
    ∷ codes "GET  /api/auth/session"
    ∷ codes "POST /api/auth/login"
    ∷ codes "POST /api/auth/logout"
    ∷ codes "```"
    ∷ []
    ∷ codes "---"
    ∷ []
    ∷ codes "## Metrics"
    ∷ []
    ∷ codes "```"
    ∷ codes "GET /api/metrics"
    ∷ codes "```"
    ∷ []
    ∷ codes "Prometheus-compatible text format."
    ∷ []
    ∷ codes "---"
    ∷ []
    ∷ codes "## Proxy Gateway"
    ∷ []
    ∷ codes "Enable with `GATEWAY_ENABLED=true`. Default port: 7890."
    ∷ []
    ∷ codes "```python"
    ∷ codes "import requests"
    ∷ []
    ∷ codes "requests.get(\"http://httpbin.org/ip\", proxies={"
    ∷ codes "    \"http\": \"http://127.0.0.1:7890\","
    ∷ codes "    \"https\": \"http://127.0.0.1:7890\","
    ∷ codes "})"
    ∷ codes "```"
    ∷ []
    ∷ codes "**Custom Headers**"
    ∷ []
    ∷ codes "| Header | Description | Example |"
    ∷ codes "|--------|-------------|---------|"
    ∷ codes "| X-Proxy-Country | Filter by country | `US` |"
    ∷ codes "| X-Proxy-Scheme | Filter by protocol | `socks5` |"
    ∷ codes "| X-Proxy-Strategy | Selection strategy | `best`, `random`, `rotate` |"
    ∷ []
    ∷ []
