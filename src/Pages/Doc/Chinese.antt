-- ===== src/Pages/Doc/Chinese.antt =====
-- dashboard/src/docs/api-docs.ts: the Chinese document, by its lines.
pub mod Proxies
pub mod Service
pub mod Operation
pub mod Mirrors
use proxy_pool_architect.Base.{List, ◌++◌}
use proxy_pool_architect.Base.Text.{Text}
use proxy_pool_architect.Pages.Doc.Chinese.Proxies.{zh_proxies}
use proxy_pool_architect.Pages.Doc.Chinese.Service.{zh_service}
use proxy_pool_architect.Pages.Doc.Chinese.Operation.{zh_operation}
use proxy_pool_architect.Pages.Doc.Chinese.Mirrors.{zh_mirrors}

unfoldable pub api_doc_zh : List Text
unfolding zh_proxies zh_service zh_operation zh_mirrors
api_doc_zh = zh_proxies ++ (zh_service ++ (zh_operation ++ (zh_mirrors)))
