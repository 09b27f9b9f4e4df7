-- ===== src/Pages/Doc/Chinese/Operation.antt =====
-- dashboard/src/docs/api-docs.ts: the Chinese document from the geo summary to the gateway.
use proxy_pool_architect.Base.{List, [], ◌∷◌}
use proxy_pool_architect.Base.Text.{Text, codes}

unfoldable pub zh_operation : List Text
zh_operation =
    codes "## 地理信息"
    ∷ []
    ∷ codes "```"
    ∷ codes "GET /api/geo/summary"
    ∷ codes "```"
    ∷ []
    ∷ codes "返回代理的国家分布、ASN 分布和覆盖率信息。"
    ∷ []
    ∷ codes "---"
    ∷ []
    ∷ codes "## 验证任务"
    ∷ []
    ∷ codes "### 验证任务列表"
    ∷ []
    ∷ codes "```"
    ∷ codes "GET /api/validation/jobs?limit=50&offset=0"
    ∷ codes "```"
    ∷ []
    ∷ codes "### 手动触发验证"
    ∷ []
    ∷ codes "```"
    ∷ codes "POST /api/validation/run?limit=100"
    ∷ codes "```"
    ∷ []
    ∷ codes "---"
    ∷ []
    ∷ codes "## 事件日志"
    ∷ []
    ∷ codes "```"
    ∷ codes "GET /api/events?limit=50&offset=0"
    ∷ codes "```"
    ∷ []
    ∷ codes "---"
    ∷ []
    ∷ codes "## 运行时设置"
    ∷ []
    ∷ codes "### 获取设置"
    ∷ []
    ∷ codes "```"
    ∷ codes "GET /api/settings"
    ∷ codes "```"
    ∷ []
    ∷ codes "### 更新设置"
    ∷ []
    ∷ codes "```"
    ∷ codes "PATCH /api/settings"
    ∷ codes "```"
    ∷ []
    ∷ codes "**请求体示例**"
    ∷ []
    ∷ codes "```json"
    ∷ codes "{"
    ∷ codes "  \"fetch_interval_seconds\": 900,"
    ∷ codes "  \"validate_interval_seconds\": 300,"
    ∷ codes "  \"validate_timeout_seconds\": 5,"
    ∷ codes "  \"validate_concurrency\": 50,"
    ∷ codes "  \"min_elite_score\": 85,"
    ∷ codes "  \"cooldown_seconds\": 1200,"
    ∷ codes "  \"safe_networking\": {"
    ∷ codes "    \"authorized_targets_only\": true,"
    ∷ codes "    \"block_private_networks\": true,"
    ∷ codes "    \"mask_proxy_credentials\": true"
    ∷ codes "  }"
    ∷ codes "}"
    ∷ codes "```"
    ∷ []
    ∷ codes "---"
    ∷ []
    ∷ codes "## 认证接口"
    ∷ []
    ∷ codes "### 检查会话状态"
    ∷ []
    ∷ codes "```"
    ∷ codes "GET /api/auth/session"
    ∷ codes "```"
    ∷ []
    ∷ codes "### 登录"
    ∷ []
    ∷ codes "```"
    ∷ codes "POST /api/auth/login"
    ∷ codes "```"
    ∷ []
    ∷ codes "**请求体**"
    ∷ []
    ∷ codes "```json"
    ∷ codes "{\"username\": \"admin\", \"password\": \"your-password\"}"
    ∷ codes "```"
    ∷ []
    ∷ codes "### 登出"
    ∷ []
    ∷ codes "```"
    ∷ codes "POST /api/auth/logout"
    ∷ codes "```"
    ∷ []
    ∷ codes "---"
    ∷ []
    ∷ codes "## 监控接口"
    ∷ []
    ∷ codes "### Prometheus 指标"
    ∷ []
    ∷ codes "```"
    ∷ codes "GET /api/metrics"
    ∷ codes "```"
    ∷ []
    ∷ codes "返回 Prometheus 兼容的文本格式指标。"
    ∷ []
    ∷ codes "---"
    ∷ []
    ∷ codes "## 本地代理网关"
    ∷ []
    ∷ codes "启用 `GATEWAY_ENABLED=true` 后，应用会在 `GATEWAY_PORT`（默认 7890）启动一个 HTTP CONNECT 代理网关。"
    ∷ []
    ∷ codes "### Python 使用示例"
    ∷ []
    ∷ codes "```python"
    ∷ codes "import requests"
    ∷ []
    ∷ codes "# 自动选择最优代理"
    ∷ codes "requests.get(\"http://httpbin.org/ip\", proxies={"
    ∷ codes "    \"http\": \"http://127.0.0.1:7890\","
    ∷ codes "    \"https\": \"http://127.0.0.1:7890\","
    ∷ codes "})"
    ∷ codes "```"
    ∷ []
    ∷ codes "### 自定义请求头"
    ∷ []
    ∷ codes "每个连接可通过自定义请求头指定路由规则:"
    ∷ []
    ∷ codes "| 请求头 | 说明 | 示例 |"
    ∷ codes "|--------|------|------|"
    ∷ codes "| X-Proxy-Country | 按国家筛选 | `US`, `CN`, `SG` |"
    ∷ codes "| X-Proxy-Scheme | 按协议筛选 | `socks5`, `http` |"
    ∷ codes "| X-Proxy-Strategy | 选择策略 | `best`, `random`, `rotate` |"
    ∷ []
    ∷ codes "### 环境变量"
    ∷ []
    ∷ codes "| 变量 | 默认值 | 说明 |"
    ∷ codes "|------|--------|------|"
    ∷ codes "| GATEWAY_ENABLED | false | 是否启用网关 |"
    ∷ codes "| GATEWAY_PORT | 7890 | 监听端口 |"
    ∷ codes "| GATEWAY_HOST | 127.0.0.1 | 监听地址 |"
    ∷ codes "| GATEWAY_DEFAULT_COUNTRY | (空) | 默认国家筛选 |"
    ∷ codes "| GATEWAY_DEFAULT_SCHEME | (空) | 默认协议筛选 |"
    ∷ codes "| GATEWAY_DEFAULT_STRATEGY | best | 默认选择策略 |"
    ∷ []
    ∷ codes "---"
    ∷ []
    ∷ []
