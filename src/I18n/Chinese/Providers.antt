-- ===== src/I18n/Chinese/Providers.antt =====
-- dashboard/src/i18n/translations.ts: the Chinese texts of the geo data and the providers.
use proxy_pool_architect.Base.{List, [], ◌∷◌}
use proxy_pool_architect.Base.Text.{Text}
use proxy_pool_architect.I18n.Entries.{entry}

unfoldable pub zh_providers : List (Text × Text)
zh_providers =
    entry "geo.loadError" "无法加载地理摘要"
    ∷ entry "geo.loading" "正在加载地理摘要"
    ∷ entry "geo.emptyTitle" "暂无地理数据"
    ∷ entry "geo.emptyMessage" "没有返回国家/地区或 ASN 记录。"
    ∷ entry "geo.coverage" "地理覆盖"
    ∷ entry "geo.coverageDescription" "当前代理池中带有国家/地区或 ASN 标注的覆盖情况。"
    ∷ entry "geo.coverageHint" "Geo 标注当前为{status}。Geo 文件状态：{file}。"
    ∷ entry "geo.coverageFile" "Geo 文件：{file}"
    ∷ entry "geo.totalProxies" "代理总数"
    ∷ entry "geo.geoTagged" "已标注 Geo"
    ∷ entry "geo.unresolved" "未解析"
    ∷ entry "geo.geoStatus" "Geo 状态"
    ∷ entry "geo.backendGeoEnabled" "已启用"
    ∷ entry "geo.backendGeoDisabled" "未启用"
    ∷ entry "geo.fileAvailable" "Geo 文件可用"
    ∷ entry "geo.fileMissing" "Geo 文件缺失"
    ∷ entry "geo.liveNote" "实时模式会从后端读取地理摘要；当接口不可用时，可从代理快照推导。"
    ∷ entry "geo.mockNote" "当前页面使用模拟运行数据。"
    ∷ entry "geo.countryDistribution" "国家/地区分布"
    ∷ entry "geo.countryDescription" "按国家/地区展示代理总数、高匿数量和平均延迟。"
    ∷ entry "geo.asnDistribution" "ASN 分布"
    ∷ entry "geo.asnDescription" "当前代理池中的主要 ASN 分组。"
    ∷ entry "geo.latencyAnalysis" "延迟分析"
    ∷ entry "geo.latencyDescription" "基于当前后端摘要按国家/地区和 ASN 展示平均延迟。"
    ∷ entry "geo.lowestLatency" "最低平均延迟"
    ∷ entry "geo.highestLatency" "最高平均延迟"
    ∷ entry "geo.scope" "范围"
    ∷ entry "geo.group" "分组"
    ∷ entry "geo.countryScope" "国家/地区"
    ∷ entry "geo.asnScope" "ASN"
    ∷ entry "geo.noLatencyTitle" "暂无延迟数据"
    ∷ entry "geo.noLatencyMessage" "国家/地区或 ASN 记录暂未包含平均延迟。"
    ∷ entry "geo.total" "总数"
    ∷ entry "geo.elite" "高匿"
    ∷ entry "geo.averageLatency" "平均延迟"
    ∷ entry "geo.stackSummary" "{total} 总数 / {elite} 高匿 / {latency}"
    ∷ entry "geo.asnTableCaption" "包含总数、高匿数量和平均延迟的 ASN 分布"
    ∷ entry "geo.latencyTableCaption" "{title}，按国家/地区和 ASN 展示"
    ∷ entry "geo.countryPaginationLabel" "国家/地区分页"
    ∷ entry "geo.asnPaginationLabel" "ASN 分页"
    ∷ entry "providers.loadError" "无法加载来源摘要"
    ∷ entry "providers.loading" "正在加载来源状态"
    ∷ entry "providers.emptyTitle" "暂无来源"
    ∷ entry "providers.emptyMessage" "没有返回来源记录。"
    ∷ entry "providers.health" "来源健康"
    ∷ entry "providers.liveNote" "实时模式会从后端读取来源摘要；仅在需要时回退到基于代理来源的推导数据。"
    ∷ entry "providers.mockNote" "当前页面使用模拟来源数据。"
    ∷ entry "providers.importTitle" "导入代理 URL"
    ∷ entry "providers.importDescription" "抓取远程代理列表文件，规范化支持的条目，并将唯一代理加入原始池。"
    ∷ entry "providers.importUrl" "来源 URL"
    ∷ entry "providers.importUrlPlaceholder" "https://example.com/http.txt"
    ∷ entry "providers.importFileType" "文件类型"
    ∷ entry "providers.importDetectedFormat" "检测格式"
    ∷ entry "providers.importProtocols" "检测到的协议"
    ∷ entry "providers.importConnectionModes" "连接支持"
    ∷ entry "providers.fileType.http" "http.txt"
    ∷ entry "providers.fileType.socks5" "socks5.txt"
    ∷ entry "providers.fileType.all" "all.txt"
    ∷ entry "providers.fileType.auto" "自动检测"
    ∷ entry "providers.fileType.clash" "Clash / FlClash"
    ∷ entry "providers.fileType.v2ray" "V2Ray / Xray"
    ∷ entry "providers.detectedFormat.plain_text" "纯文本列表"
    ∷ entry "providers.detectedFormat.clash_yaml" "Clash YAML"
    ∷ entry "providers.detectedFormat.v2ray_uri_list" "V2Ray URI 列表"
    ∷ entry "providers.detectedFormat.base64_uri_list" "Base64 URI 列表"
    ∷ entry "providers.connectionMode.direct" "直连"
    ∷ entry "providers.connectionMode.core_adapter" "核心适配器"
    ∷ entry "providers.importSubmit" "抓取并导入"
    ∷ entry "providers.importError" "无法从提交的 URL 导入代理"
    ∷ entry "providers.importSuccess" "已向原始池写入 {count} 个代理。"
    ∷ entry "providers.importFetched" "抓取到"
    ∷ entry "providers.importValid" "有效"
    ∷ entry "providers.importStored" "已写入"
    ∷ entry "providers.importDirect" "可直连"
    ∷ entry "providers.importAdapter" "需适配器"
    ∷ entry "providers.importDuplicates" "重复"
    ∷ entry "providers.importInvalid" "无效"
    ∷ entry "providers.importUnsupported" "未支持"
    ∷ entry "providers.importAdapterHint"
        "VMess、VLESS、Trojan、Shadowsocks、Hysteria、TUIC 等高级节点需要先配置本地 core adapter，才能作为代理池端点使用。"
    ∷ entry "providers.inventory" "来源清单"
    ∷ entry "providers.description" "启用状态、抓取数量、有效数量和最近错误信号。"
    ∷ entry "providers.name" "名称"
    ∷ entry "providers.status" "状态"
    ∷ entry "providers.lastFetch" "最近抓取"
    ∷ entry "providers.fetchedCount" "抓取数量"
    ∷ entry "providers.validCount" "有效数量"
    ∷ entry "providers.errorSummary" "错误摘要"
    ∷ entry "providers.tableCaption" "包含状态、抓取数量、有效数量和错误的来源清单"
    ∷ entry "providers.paginationLabel" "来源分页"
    ∷ []
