-- ===== src/Pages/Doc/Chinese/Service.antt =====
-- dashboard/src/docs/api-docs.ts: the Chinese document from the reports on a proxy to the sources.
use proxy_pool_architect.Base.{List, [], ◌∷◌}
use proxy_pool_architect.Base.Text.{Text, codes}

unfoldable pub zh_service : List Text
zh_service =
    codes "### 上报使用结果"
    ∷ []
    ∷ codes "向系统反馈代理使用结果，影响评分和池分配。"
    ∷ []
    ∷ codes "```"
    ∷ codes "POST /api/proxy/report"
    ∷ codes "```"
    ∷ []
    ∷ codes "**请求体**"
    ∷ []
    ∷ codes "| 字段 | 类型 | 必填 | 说明 |"
    ∷ codes "|------|------|------|------|"
    ∷ codes "| proxy_id | string | 是 | 代理 ID |"
    ∷ codes "| ok | bool | 是 | 是否成功 |"
    ∷ codes "| latency_ms | int | 否 | 延迟 (毫秒) |"
    ∷ codes "| error | string | 否 | 错误描述 |"
    ∷ []
    ∷ codes "**响应示例**"
    ∷ []
    ∷ codes "```json"
    ∷ codes "{"
    ∷ codes "  \"proxy_id\": \"http-1.2.3.4-8080\","
    ∷ codes "  \"status\": \"checked\","
    ∷ codes "  \"score\": 60,"
    ∷ codes "  \"success_count\": 3,"
    ∷ codes "  \"fail_count\": 1"
    ∷ codes "}"
    ∷ codes "```"
    ∷ []
    ∷ codes "**curl 示例**"
    ∷ []
    ∷ codes "```bash"
    ∷ codes "curl -X POST \"http://localhost:8000/api/proxy/report\" \\"
    ∷ codes "  -H \"Content-Type: application/json\" \\"
    ∷ codes "  -d '{\"proxy_id\":\"http-1.2.3.4-8080\",\"ok\":true,\"latency_ms\":80}'"
    ∷ codes "```"
    ∷ []
    ∷ codes "---"
    ∷ []
    ∷ codes "### 删除代理"
    ∷ []
    ∷ codes "```"
    ∷ codes "DELETE /api/proxy/{proxy_id}"
    ∷ codes "```"
    ∷ []
    ∷ codes "**curl 示例**"
    ∷ []
    ∷ codes "```bash"
    ∷ codes "curl -X DELETE \"http://localhost:8000/api/proxy/http-1.2.3.4-8080\""
    ∷ codes "```"
    ∷ []
    ∷ codes "---"
    ∷ []
    ∷ codes "## 统计接口"
    ∷ []
    ∷ codes "### 获取统计信息"
    ∷ []
    ∷ codes "```"
    ∷ codes "GET /api/stats"
    ∷ codes "```"
    ∷ []
    ∷ codes "**响应字段**"
    ∷ []
    ∷ codes "| 字段 | 类型 | 说明 |"
    ∷ codes "|------|------|------|"
    ∷ codes "| pools | object | 各池代理数量 |"
    ∷ codes "| total | int | 代理总数 |"
    ∷ codes "| average_latency_ms | float | 平均延迟 (ms) |"
    ∷ codes "| success_rate | float | 成功率 (0-1) |"
    ∷ codes "| db_status | string | 数据库状态 |"
    ∷ codes "| scheduler_status | string | 调度器状态 |"
    ∷ []
    ∷ codes "**curl 示例**"
    ∷ []
    ∷ codes "```bash"
    ∷ codes "curl \"http://localhost:8000/api/stats\""
    ∷ codes "```"
    ∷ []
    ∷ codes "---"
    ∷ []
    ∷ codes "## 健康检查"
    ∷ []
    ∷ codes "```"
    ∷ codes "GET /api/health"
    ∷ codes "```"
    ∷ []
    ∷ codes "**响应示例**"
    ∷ []
    ∷ codes "```json"
    ∷ codes "{"
    ∷ codes "  \"status\": \"ok\","
    ∷ codes "  \"app\": \"ProxyPool Architect\","
    ∷ codes "  \"version\": \"0.1.0\","
    ∷ codes "  \"environment\": \"dev\","
    ∷ codes "  \"db_configured\": true,"
    ∷ codes "  \"db\": \"ok\","
    ∷ codes "  \"scheduler\": \"stopped\""
    ∷ codes "}"
    ∷ codes "```"
    ∷ []
    ∷ codes "---"
    ∷ []
    ∷ codes "## 来源管理"
    ∷ []
    ∷ codes "### 来源列表"
    ∷ []
    ∷ codes "```"
    ∷ codes "GET /api/providers"
    ∷ codes "```"
    ∷ []
    ∷ codes "### 来源详情"
    ∷ []
    ∷ codes "```"
    ∷ codes "GET /api/providers/{provider_name}"
    ∷ codes "```"
    ∷ []
    ∷ codes "### 导入代理 URL"
    ∷ []
    ∷ codes "从远程 URL 导入代理列表。"
    ∷ []
    ∷ codes "```"
    ∷ codes "POST /api/providers/import-url"
    ∷ codes "```"
    ∷ []
    ∷ codes "**请求体**"
    ∷ []
    ∷ codes "| 字段 | 类型 | 必填 | 说明 |"
    ∷ codes "|------|------|------|------|"
    ∷ codes "| url | string | 是 | 代理列表 URL |"
    ∷ codes "| file_type | string | 是 | 类型: `auto`, `http`, `socks5`, `all`, `clash`, `v2ray` |"
    ∷ []
    ∷ codes "**curl 示例**"
    ∷ []
    ∷ codes "```bash"
    ∷ codes "curl -X POST \"http://localhost:8000/api/providers/import-url\" \\"
    ∷ codes "  -H \"Content-Type: application/json\" \\"
    ∷ codes "  -d '{\"url\":\"https://example.com/http.txt\",\"file_type\":\"auto\"}'"
    ∷ codes "```"
    ∷ []
    ∷ codes "---"
    ∷ []
    ∷ []
