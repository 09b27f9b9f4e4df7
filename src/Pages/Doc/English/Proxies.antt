-- ===== src/Pages/Doc/English/Proxies.antt =====
-- dashboard/src/docs/api-docs.ts: the English document on proxies.
use proxy_pool_architect.Base.{List, [], ◌∷◌}
use proxy_pool_architect.Base.Text.{Text, codes}

unfoldable pub en_proxies : List Text
en_proxies =
    codes "# ProxyPool Architect API Reference"
    ∷ []
    ∷ codes "## Base Info"
    ∷ []
    ∷ codes "- **Base URL**: `http://localhost:8000/api`"
    ∷ codes "- **Auth**: HTTP Basic Auth or session cookie when `AUTH_ENABLED=true`"
    ∷ codes "- **Content-Type**: `application/json`"
    ∷ codes "- **Encoding**: UTF-8"
    ∷ []
    ∷ codes "---"
    ∷ []
    ∷ codes "## Proxy Endpoints"
    ∷ []
    ∷ codes "### Get Proxy"
    ∷ []
    ∷ codes "Returns the best proxy matching the given filters."
    ∷ []
    ∷ codes "```"
    ∷ codes "GET /api/proxy"
    ∷ codes "```"
    ∷ []
    ∷ codes "**Query Parameters**"
    ∷ []
    ∷ codes "| Param | Type | Required | Description |"
    ∷ codes "|-------|------|----------|-------------|"
    ∷ codes "| scheme | string | No | Protocol: `http`, `https`, `socks4`, `socks5` |"
    ∷ codes "| anonymity | string | No | Level: `unknown`, `transparent`, `anonymous`, `elite` |"
    ∷ codes "| country | string | No | Country code, e.g. `US`, `CN` |"
    ∷ codes "| min_score | int | No | Minimum score |"
    ∷ codes "| session_id | string | No | Session ID (max 128 chars) for affinity |"
    ∷ codes "| format | string | No | Response: `json` (default) or `text` |"
    ∷ []
    ∷ codes "**Example**"
    ∷ []
    ∷ codes "```bash"
    ∷ codes "curl \"http://localhost:8000/api/proxy?scheme=http&country=US\""
    ∷ codes "```"
    ∷ []
    ∷ codes "---"
    ∷ []
    ∷ codes "### List Proxies"
    ∷ []
    ∷ codes "Paginated proxy list with filters."
    ∷ []
    ∷ codes "```"
    ∷ codes "GET /api/proxy/list"
    ∷ codes "```"
    ∷ []
    ∷ codes "**Query Parameters**"
    ∷ []
    ∷ codes "| Param | Type | Required | Description |"
    ∷ codes "|-------|------|----------|-------------|"
    ∷ codes "| pool | string | No | Pool: `raw`, `checked`, `elite`, `dead`, `cooldown` |"
    ∷ codes "| scheme | string | No | Protocol |"
    ∷ codes "| anonymity | string | No | Anonymity level |"
    ∷ codes "| country | string | No | Country code |"
    ∷ codes "| source | string | No | Provider source name |"
    ∷ codes "| q | string | No | Host/ID substring search |"
    ∷ codes "| min_score | int | No | Minimum score |"
    ∷ codes "| limit | int | No | Page size (1-500, default 100) |"
    ∷ codes "| offset | int | No | Offset (default 0) |"
    ∷ []
    ∷ codes "---"
    ∷ []
    ∷ codes "### Proxy Detail"
    ∷ []
    ∷ codes "```"
    ∷ codes "GET /api/proxy/{proxy_id}"
    ∷ codes "```"
    ∷ []
    ∷ codes "---"
    ∷ []
    ∷ codes "### Report Result"
    ∷ []
    ∷ codes "```"
    ∷ codes "POST /api/proxy/report"
    ∷ codes "```"
    ∷ []
    ∷ codes "| Field | Type | Required | Description |"
    ∷ codes "|-------|------|----------|-------------|"
    ∷ codes "| proxy_id | string | Yes | Proxy ID |"
    ∷ codes "| ok | bool | Yes | Success or not |"
    ∷ codes "| latency_ms | int | No | Latency in ms |"
    ∷ codes "| error | string | No | Error message |"
    ∷ []
    ∷ codes "---"
    ∷ []
    ∷ codes "### Delete Proxy"
    ∷ []
    ∷ codes "```"
    ∷ codes "DELETE /api/proxy/{proxy_id}"
    ∷ codes "```"
    ∷ []
    ∷ codes "---"
    ∷ []
    ∷ []
