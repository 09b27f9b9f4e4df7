-- ===== src/Pages/Doc/Chinese/Proxies.antt =====
-- dashboard/src/docs/api-docs.ts: the Chinese document on getting proxies.
use proxy_pool_architect.Base.{List, [], ◌∷◌}
use proxy_pool_architect.Base.Text.{Text, codes}

unfoldable pub zh_proxies : List Text
zh_proxies =
    codes "# ProxyPool Architect API 文档"
    ∷ []
    ∷ codes "## 基础信息"
    ∷ []
    ∷ codes "- **Base URL**: `http://localhost:8000/api`"
    ∷ codes "- **认证**: 启用 `AUTH_ENABLED=true` 后需要 HTTP Basic Auth 或 Session Cookie"
    ∷ codes "- **Content-Type**: `application/json`"
    ∷ codes "- **字符编码**: UTF-8"
    ∷ []
    ∷ codes "---"
    ∷ []
    ∷ codes "## 代理接口"
    ∷ []
    ∷ codes "### 获取单个代理"
    ∷ []
    ∷ codes "根据筛选条件返回最优代理。"
    ∷ []
    ∷ codes "```"
    ∷ codes "GET /api/proxy"
    ∷ codes "```"
    ∷ []
    ∷ codes "**Query 参数**"
    ∷ []
    ∷ codes "| 参数 | 类型 | 必填 | 说明 |"
    ∷ codes "|------|------|------|------|"
    ∷ codes "| scheme | string | 否 | 协议: `http`, `https`, `socks4`, `socks5` |"
    ∷ codes "| anonymity | string | 否 | 匿名级别: `unknown`, `transparent`, `anonymous`, `elite` |"
    ∷ codes "| country | string | 否 | 国家代码，如 `US`, `CN`, `SG` |"
    ∷ codes "| min_score | int | 否 | 最低分数 |"
    ∷ codes "| session_id | string | 否 | 会话 ID（最长 128 字符），用于会话亲和 |"
    ∷ codes "| format | string | 否 | 响应格式: `json`（默认）, `text` |"
    ∷ []
    ∷ codes "**响应示例 (JSON)**"
    ∷ []
    ∷ codes "```json"
    ∷ codes "{"
    ∷ codes "  \"id\": \"http-1.2.3.4-8080\","
    ∷ codes "  \"scheme\": \"http\","
    ∷ codes "  \"host\": \"1.2.3.4\","
    ∷ codes "  \"port\": 8080,"
    ∷ codes "  \"auth_required\": true,"
    ∷ codes "  \"source\": \"static\","
    ∷ codes "  \"country\": \"US\","
    ∷ codes "  \"anonymity\": \"elite\","
    ∷ codes "  \"latency_ms\": 120,"
    ∷ codes "  \"success_count\": 5,"
    ∷ codes "  \"fail_count\": 1,"
    ∷ codes "  \"score\": 95,"
    ∷ codes "  \"status\": \"elite\""
    ∷ codes "}"
    ∷ codes "```"
    ∷ []
    ∷ codes "**响应示例 (text)**"
    ∷ []
    ∷ codes "```"
    ∷ codes "http://1.2.3.4:8080"
    ∷ codes "```"
    ∷ []
    ∷ codes "> 注意: `format=text` 不包含认证信息。"
    ∷ []
    ∷ codes "**curl 示例**"
    ∷ []
    ∷ codes "```bash"
    ∷ codes "curl \"http://localhost:8000/api/proxy?scheme=http&country=US&min_score=80\""
    ∷ codes "curl \"http://localhost:8000/api/proxy?session_id=my-task-123\""
    ∷ codes "curl \"http://localhost:8000/api/proxy?format=text\""
    ∷ codes "```"
    ∷ []
    ∷ codes "---"
    ∷ []
    ∷ codes "### 代理列表"
    ∷ []
    ∷ codes "分页查询代理列表，支持多种筛选。"
    ∷ []
    ∷ codes "```"
    ∷ codes "GET /api/proxy/list"
    ∷ codes "```"
    ∷ []
    ∷ codes "**Query 参数**"
    ∷ []
    ∷ codes "| 参数 | 类型 | 必填 | 说明 |"
    ∷ codes "|------|------|------|------|"
    ∷ codes "| pool | string | 否 | 池名: `raw`, `checked`, `elite`, `dead`, `cooldown` |"
    ∷ codes "| scheme | string | 否 | 协议 |"
    ∷ codes "| anonymity | string | 否 | 匿名级别 |"
    ∷ codes "| country | string | 否 | 国家代码 |"
    ∷ codes "| source | string | 否 | 来源名称 |"
    ∷ codes "| q | string | 否 | 主机名或 ID 子串搜索 |"
    ∷ codes "| min_score | int | 否 | 最低分数 |"
    ∷ codes "| limit | int | 否 | 每页数量 (1-500, 默认 100) |"
    ∷ codes "| offset | int | 否 | 偏移量 (默认 0) |"
    ∷ []
    ∷ codes "**响应示例**"
    ∷ []
    ∷ codes "```json"
    ∷ codes "{"
    ∷ codes "  \"items\": [...],"
    ∷ codes "  \"total\": 42,"
    ∷ codes "  \"proxies\": [...],"
    ∷ codes "  \"count\": 20,"
    ∷ codes "  \"limit\": 20,"
    ∷ codes "  \"offset\": 0"
    ∷ codes "}"
    ∷ codes "```"
    ∷ []
    ∷ codes "**curl 示例**"
    ∷ []
    ∷ codes "```bash"
    ∷ codes "curl \"http://localhost:8000/api/proxy/list?pool=elite&limit=20&offset=0\""
    ∷ codes "curl \"http://localhost:8000/api/proxy/list?source=static&country=US\""
    ∷ codes "```"
    ∷ []
    ∷ codes "---"
    ∷ []
    ∷ codes "### 代理详情"
    ∷ []
    ∷ codes "根据代理 ID 获取详细信息。"
    ∷ []
    ∷ codes "```"
    ∷ codes "GET /api/proxy/{proxy_id}"
    ∷ codes "```"
    ∷ []
    ∷ codes "**路径参数**"
    ∷ []
    ∷ codes "| 参数 | 类型 | 说明 |"
    ∷ codes "|------|------|------|"
    ∷ codes "| proxy_id | string | 代理 ID，如 `http-1.2.3.4-8080` |"
    ∷ []
    ∷ codes "**curl 示例**"
    ∷ []
    ∷ codes "```bash"
    ∷ codes "curl \"http://localhost:8000/api/proxy/http-1.2.3.4-8080\""
    ∷ codes "```"
    ∷ []
    ∷ codes "---"
    ∷ []
    ∷ []
