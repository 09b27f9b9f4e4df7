-- ===== src/I18n/Chinese/Operations.antt =====
-- dashboard/src/i18n/translations.ts: the Chinese texts of validation, logs, settings and placeholders.
use proxy_pool_architect.Base.{List, [], ◌∷◌}
use proxy_pool_architect.Base.Text.{Text}
use proxy_pool_architect.I18n.Entries.{entry}

unfoldable pub zh_operations : List (Text × Text)
zh_operations =
    entry "validation.loadError" "无法加载验证状态"
    ∷ entry "validation.loading" "正在加载验证状态"
    ∷ entry "validation.emptyTitle" "暂无验证活动"
    ∷ entry "validation.emptyMessage" "没有返回近期验证任务。"
    ∷ entry "validation.statusTitle" "验证状态"
    ∷ entry "validation.liveNote" "实时模式会从后端读取近期验证任务和运行事件。"
    ∷ entry "validation.mockNote" "当前页面使用模拟验证历史。"
    ∷ entry "validation.recentSuccessRate" "近期成功率"
    ∷ entry "validation.recentSuccessDetail" "基于近期验证任务"
    ∷ entry "validation.timeoutRate" "超时率"
    ∷ entry "validation.timeoutEvents" "{count} 个超时事件"
    ∷ entry "validation.deadDetail" "当前失效池规模"
    ∷ entry "validation.checkedDetail" "可用于选择"
    ∷ entry "validation.recentJobs" "近期验证任务"
    ∷ entry "validation.jobsDescription" "任务级吞吐、成功、失败和超时信号。"
    ∷ entry "validation.commonErrors" "常见错误类型"
    ∷ entry "validation.commonErrorsDescription" "近期事件中最常见的警告和错误类别。"
    ∷ entry "validation.eventsCount" "{count} 个事件"
    ∷ entry "validation.job" "任务"
    ∷ entry "validation.started" "开始"
    ∷ entry "validation.finished" "完成"
    ∷ entry "validation.checked" "已检查"
    ∷ entry "validation.timeout" "超时"
    ∷ entry "validation.tableCaption" "包含吞吐和成功率的近期验证任务"
    ∷ entry "validation.paginationLabel" "验证任务分页"
    ∷ entry "logs.loadError" "无法加载事件日志"
    ∷ entry "logs.loading" "正在加载事件日志"
    ∷ entry "logs.emptyTitle" "暂无事件"
    ∷ entry "logs.emptyMessage" "没有返回运行事件。"
    ∷ entry "logs.operationalEvents" "运行事件"
    ∷ entry "logs.liveNote" "实时模式会读取后端事件历史；仅当接口不可用时回退到模拟事件。"
    ∷ entry "logs.mockNote" "当前页面使用模拟运行事件。"
    ∷ entry "logs.recentEvents" "近期事件"
    ∷ entry "logs.description" "警告、错误和常规操作员可见动作。"
    ∷ entry "logs.time" "时间"
    ∷ entry "logs.level" "级别"
    ∷ entry "logs.type" "类型"
    ∷ entry "logs.message" "消息"
    ∷ entry "logs.tableCaption" "运行事件日志"
    ∷ entry "logs.paginationLabel" "事件日志分页"
    ∷ entry "settings.loadError" "无法加载设置"
    ∷ entry "settings.loading" "正在加载仪表盘设置"
    ∷ entry "settings.emptyTitle" "暂无设置"
    ∷ entry "settings.emptyMessage" "没有返回仪表盘设置。"
    ∷ entry "settings.saved" "设置已保存。"
    ∷ entry "settings.saveError" "无法保存设置"
    ∷ entry "settings.runtimeTitle" "运行设置"
    ∷ entry "settings.liveNote" "实时模式会读取并更新后端安全运行设置。"
    ∷ entry "settings.mockNote" "当前页面使用模拟设置数据。"
    ∷ entry "settings.preferences" "偏好设置"
    ∷ entry "settings.preferencesDescription" "显示选项会保存在当前浏览器本地。"
    ∷ entry "settings.language" "语言"
    ∷ entry "settings.schedulerTitle" "调度与验证"
    ∷ entry "settings.schedulerDescription" "这里只暴露安全网络和质量管理相关设置。"
    ∷ entry "settings.fetchInterval" "抓取间隔秒数"
    ∷ entry "settings.validationInterval" "验证间隔秒数"
    ∷ entry "settings.validationTimeout" "验证超时秒数"
    ∷ entry "settings.validationConcurrency" "验证并发数"
    ∷ entry "settings.minimumEliteScore" "最低高匿评分"
    ∷ entry "settings.cooldownSeconds" "冷却秒数"
    ∷ entry "settings.authorizedTargets" "仅限授权目标"
    ∷ entry "settings.authorizedTargetsDescription" "将仪表盘触发的网络操作限制在已批准的内部或自有目标。"
    ∷ entry "settings.blockPrivateNetworks" "阻止私有网络"
    ∷ entry "settings.blockPrivateNetworksDescription" "默认避免将验证任务路由到 RFC1918 或仅本地可达的地址。"
    ∷ entry "settings.maskCredentials" "遮蔽代理凭据"
    ∷ entry "settings.maskCredentialsDescription" "不要在仪表盘 UI 中显示代理用户名或密码。"
    ∷ entry "settings.connected" "已连接实时设置 API。"
    ∷ entry "settings.saving" "保存中..."
    ∷ entry "settings.save" "保存设置"
    ∷ entry "placeholder.emptyTitle" "{title} 暂无数据"
    ∷ entry "placeholder.emptyMessage" "当前视图暂无记录。"
    ∷ []
