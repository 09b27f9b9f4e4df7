-- ===== src/I18n/Chinese/Proxies.antt =====
-- dashboard/src/i18n/translations.ts: the Chinese texts of the overview and the proxies.
use proxy_pool_architect.Base.{List, [], ◌∷◌}
use proxy_pool_architect.Base.Text.{Text}
use proxy_pool_architect.I18n.Entries.{entry}

unfoldable pub zh_proxies : List (Text × Text)
zh_proxies =
    entry "overview.loadError" "仪表盘发生未知错误"
    ∷ entry "overview.loading" "正在加载仪表盘数据"
    ∷ entry "overview.noDataTitle" "暂无仪表盘数据"
    ∷ entry "overview.noDataMessage" "模拟概览数据为空。"
    ∷ entry "overview.poolCounts" "代理池计数"
    ∷ entry "overview.rawProxies" "原始代理"
    ∷ entry "overview.rawDetail" "等待验证"
    ∷ entry "overview.checkedProxies" "已检查代理"
    ∷ entry "overview.checkedDetail" "连通性已通过"
    ∷ entry "overview.eliteProxies" "高匿代理"
    ∷ entry "overview.eliteDetail" "最高质量代理池"
    ∷ entry "overview.deadProxies" "失效代理"
    ∷ entry "overview.cooldownDetail" "{count} 个冷却中"
    ∷ entry "overview.operationalSummary" "运行摘要"
    ∷ entry "overview.performance" "性能"
    ∷ entry "overview.averageLatency" "平均延迟"
    ∷ entry "overview.successRate" "成功率"
    ∷ entry "overview.lastFetch" "最近抓取"
    ∷ entry "overview.lastValidation" "最近验证"
    ∷ entry "overview.liveUpdates" "实时更新"
    ∷ entry "overview.autoRefresh" "每 {seconds} 秒自动刷新一次。最近更新时间：{updatedAt}"
    ∷ entry "overview.systemHealth" "系统健康"
    ∷ entry "overview.api" "API"
    ∷ entry "overview.database" "数据库"
    ∷ entry "overview.scheduler" "调度器"
    ∷ entry "proxies.loadFilterError" "无法加载筛选项"
    ∷ entry "proxies.loadListError" "代理列表发生未知错误"
    ∷ entry "proxies.loadDetailError" "无法加载代理详情"
    ∷ entry "proxies.deleteMockFailure" "模拟删除未移除所选代理"
    ∷ entry "proxies.deleteError" "无法删除所选代理"
    ∷ entry "proxies.zeroCount" "0 个代理"
    ∷ entry "proxies.listRange" "{start}-{end} / {total}"
    ∷ entry "proxies.filters" "代理筛选"
    ∷ entry "proxies.pool" "代理池"
    ∷ entry "proxies.scheme" "协议"
    ∷ entry "proxies.anonymity" "匿名性"
    ∷ entry "proxies.country" "国家/地区"
    ∷ entry "proxies.source" "来源"
    ∷ entry "proxies.minScore" "最低评分"
    ∷ entry "proxies.hostOrIp" "主机或 IP"
    ∷ entry "proxies.allPools" "全部代理池"
    ∷ entry "proxies.allSchemes" "全部协议"
    ∷ entry "proxies.allTypes" "全部类型"
    ∷ entry "proxies.allCountries" "全部国家/地区"
    ∷ entry "proxies.allSources" "全部来源"
    ∷ entry "proxies.searchPlaceholder" "搜索主机或代理 ID"
    ∷ entry "proxies.resetFilters" "重置筛选"
    ∷ entry "proxies.inventory" "代理清单"
    ∷ entry "proxies.paginationLabel" "代理分页"
    ∷ entry "proxies.paginationPrevious" "上一页"
    ∷ entry "proxies.paginationNext" "下一页"
    ∷ entry "proxies.paginationPage" "第 {page} / {totalPages} 页"
    ∷ entry "proxies.loadingInventory" "正在加载代理清单"
    ∷ entry "proxies.emptyTitle" "没有代理匹配当前筛选条件"
    ∷ entry "proxies.emptyMessage" "调整筛选条件或清空搜索以查看更多记录。"
    ∷ entry "proxies.table.status" "状态"
    ∷ entry "proxies.table.scheme" "协议"
    ∷ entry "proxies.table.host" "主机"
    ∷ entry "proxies.table.port" "端口"
    ∷ entry "proxies.table.source" "来源"
    ∷ entry "proxies.table.country" "国家/地区"
    ∷ entry "proxies.table.asn" "ASN"
    ∷ entry "proxies.table.anonymity" "匿名性"
    ∷ entry "proxies.table.latency" "延迟"
    ∷ entry "proxies.table.score" "评分"
    ∷ entry "proxies.table.success" "成功"
    ∷ entry "proxies.table.fail" "失败"
    ∷ entry "proxies.table.lastChecked" "最近检查"
    ∷ entry "proxies.table.lastError" "最近错误"
    ∷ entry "proxies.table.actions" "操作"
    ∷ entry "proxies.tableCaption" "包含状态、端点、质量和操作的代理清单"
    ∷ entry "proxies.detail.title" "代理详情"
    ∷ entry "proxies.detail.inspecting" "正在检查所选代理"
    ∷ entry "proxies.detail.loading" "正在加载代理详情"
    ∷ entry "proxies.detail.emptyTitle" "未选择代理"
    ∷ entry "proxies.detail.emptyMessage" "选择一行代理以查看更多详情。"
    ∷ entry "proxies.detail.successFail" "成功 / 失败"
    ∷ entry "proxies.detail.lastSuccess" "最近成功"
    ∷ entry "proxies.detail.authentication" "认证"
    ∷ entry "proxies.detail.authConfigured" "已配置并隐藏"
    ∷ entry "proxies.detail.authNotRequired" "不需要"
    ∷ entry "proxies.detail.username" "用户名"
    ∷ entry "proxies.detail.password" "密码"
    ∷ entry "proxies.detail.hidden" "已隐藏"
    ∷ entry "proxies.detail.consecutiveFail" "连续失败次数"
    ∷ entry "proxies.detail.cooldownUntil" "冷却截止"
    ∷ entry "proxies.detail.noRecentError" "近期无错误"
    ∷ entry "proxies.deleteTitle" "删除代理"
    ∷ entry "proxies.deleteLiveMessage" "如果后端接口可用，所选代理将通过后端 API 删除。"
    ∷ entry "proxies.deleteMockMessage" "所选代理将从内存模拟数据集中移除。"
    ∷ entry "proxies.deleteConfirm" "删除代理"
    ∷ []
