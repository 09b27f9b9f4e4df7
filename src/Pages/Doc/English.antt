-- ===== src/Pages/Doc/English.antt =====
-- dashboard/src/docs/api-docs.ts: the English document, by its lines.
pub mod Proxies
pub mod Service
use proxy_pool_architect.Base.{List, ◌++◌}
use proxy_pool_architect.Base.Text.{Text}
use proxy_pool_architect.Pages.Doc.English.Proxies.{en_proxies}
use proxy_pool_architect.Pages.Doc.English.Service.{en_service}

unfoldable pub api_doc_en : List Text
unfolding en_proxies en_service
api_doc_en = en_proxies ++ (en_service)
