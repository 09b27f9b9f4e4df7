-- ===== src/I18n/Chinese/Shell.antt =====
-- dashboard/src/i18n/translations.ts: the Chinese texts of the shell, the navigation and the labels of states.
use proxy_pool_architect.Base.{List, [], ◌∷◌}
use proxy_pool_architect.Base.Text.{Text}
use proxy_pool_architect.I18n.Entries.{entry}

unfoldable pub zh_shell : List (Text × Text)
zh_shell =
    entry "common.cancel" "取消"
    ∷ entry "common.close" "关闭"
    ∷ entry "common.confirm" "确认"
    ∷ entry "common.delete" "删除"
    ∷ entry "common.none" "无"
    ∷ entry "common.notSet" "未设置"
    ∷ entry "common.unknown" "未知"
    ∷ entry "common.view" "查看"
    ∷ entry "common.working" "处理中..."
    ∷ entry "common.loading" "加载中"
    ∷ entry "common.unableToLoadData" "无法加载数据"
    ∷ entry "common.listRange" "{start}-{end} / {total}"
    ∷ entry "common.paginationLabel" "分页"
    ∷ entry "common.paginationPrevious" "上一页"
    ∷ entry "common.paginationNext" "下一页"
    ∷ entry "common.paginationPage" "第 {page} / {totalPages} 页"
    ∷ entry "language.en" "English"
    ∷ entry "language.zh-CN" "中文"
    ∷ entry "auth.loading" "正在检查登录状态"
    ∷ entry "auth.sessionError" "无法检查当前会话"
    ∷ entry "auth.sessionFailed" "会话检查失败"
    ∷ entry "auth.title" "管理员登录"
    ∷ entry "auth.description" "登录后才能访问代理池操作和仪表盘 API。"
    ∷ entry "auth.username" "用户名"
    ∷ entry "auth.password" "密码"
    ∷ entry "auth.usernamePlaceholder" "输入管理员用户名"
    ∷ entry "auth.passwordPlaceholder" "输入密码"
    ∷ entry "auth.login" "登录"
    ∷ entry "auth.loggingIn" "登录中..."
    ∷ entry "auth.loginError" "提供的账号密码无法登录"
    ∷ entry "auth.loginFailed" "登录失败"
    ∷ entry "auth.logout" "退出登录"
    ∷ entry "auth.logoutError" "无法退出登录"
    ∷ entry "auth.adminUser" "管理员"
    ∷ entry "nav.overview" "概览"
    ∷ entry "nav.proxies" "代理"
    ∷ entry "nav.providers" "来源"
    ∷ entry "nav.geo" "地理"
    ∷ entry "nav.validation" "验证"
    ∷ entry "nav.logs" "日志"
    ∷ entry "nav.settings" "设置"
    ∷ entry "nav.doc" "API 文档"
    ∷ entry "mode.live" "实时 API"
    ∷ entry "mode.mock" "模拟数据"
    ∷ entry "app.navigation" "仪表盘导航"
    ∷ entry "theme.light" "浅色主题"
    ∷ entry "theme.dark" "深色主题"
    ∷ entry "status.ok" "正常"
    ∷ entry "status.error" "错误"
    ∷ entry "status.unknown" "未知"
    ∷ entry "status.running" "运行中"
    ∷ entry "status.stopped" "已停止"
    ∷ entry "proxyPool.raw" "原始"
    ∷ entry "proxyPool.checked" "已检查"
    ∷ entry "proxyPool.elite" "高匿"
    ∷ entry "proxyPool.dead" "失效"
    ∷ entry "proxyPool.cooldown" "冷却"
    ∷ entry "anonymity.unknown" "未知"
    ∷ entry "anonymity.transparent" "透明"
    ∷ entry "anonymity.anonymous" "匿名"
    ∷ entry "anonymity.elite" "高匿"
    ∷ entry "provider.enabled" "启用"
    ∷ entry "provider.disabled" "停用"
    ∷ entry "eventLevel.info" "信息"
    ∷ entry "eventLevel.warning" "警告"
    ∷ entry "eventLevel.error" "错误"
    ∷ entry "validationStatus.running" "运行中"
    ∷ entry "validationStatus.finished" "已完成"
    ∷ entry "validationStatus.failed" "失败"
    ∷ []
