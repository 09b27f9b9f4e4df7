-- ===== src/Pages/Doc/Chinese/Mirrors.antt =====
-- dashboard/src/docs/api-docs.ts: the end of the Chinese document.
use proxy_pool_architect.Base.{List, [], ◌∷◌}
use proxy_pool_architect.Base.Text.{Text, codes}

unfoldable pub zh_mirrors : List Text
zh_mirrors =
    codes "## GitHub 镜像加速"
    ∷ []
    ∷ codes "当从 GitHub（raw.githubusercontent.com、github.com）抓取代理列表时，系统会自动尝试多个镜像站，提高在国内网络环境下的成功率。"
    ∷ []
    ∷ codes "### 配置方式"
    ∷ []
    ∷ codes "在 `.env` 中设置 `GITHUB_MIRRORS`（JSON 数组或逗号分隔）:"
    ∷ []
    ∷ codes "```"
    ∷ codes
        "GITHUB_MIRRORS=[\"https://gh-proxy.com/\",\"https://ghproxy.net/\",\"https://ghproxy.homeboyc.cn/\",\"https://github.akams.cn/\"]"
    ∷ codes "```"
    ∷ []
    ∷ codes "### 工作原理"
    ∷ []
    ∷ codes "1. 系统首先尝试原始 GitHub URL"
    ∷ codes "2. 如果失败，依次尝试每个镜像站"
    ∷ codes "3. 镜像 URL 格式: `{镜像站地址}/{原始 GitHub URL}`"
    ∷ codes "4. 对非 GitHub URL 不做处理"
    ∷ []
    ∷ codes "### 支持的 URL 格式"
    ∷ []
    ∷ codes "- `raw.githubusercontent.com` — Raw 文件内容"
    ∷ codes "- `github.com` — Release 下载、仓库归档"
    ∷ []
    ∷ []
