-- ===== src/Pages/Doc.antt =====
-- dashboard/src/pages/DocPage.tsx: the documentation page. The language of the document is chosen at
-- first by that of the dashboard, and then by the page's own two buttons.
pub mod Chinese
pub mod English
pub mod Nesting
pub mod Endpoints
use proxy_pool_architect.Base.{Option, List, [], ◌∷◌}
use proxy_pool_architect.Base.Text.{Text, codes}
use proxy_pool_architect.I18n.{Language, en, zh_cn}
use proxy_pool_architect.Pages.Markdown.Lines.{join}
use proxy_pool_architect.Pages.Markdown.Blocks.{render_markdown}
use proxy_pool_architect.Pages.Doc.Chinese.{api_doc_zh}
use proxy_pool_architect.Pages.Doc.English.{api_doc_en}

pub data DocLang : Type 0 where
  doc_zh doc_en : DocLang

abbrev pub initial_doc_lang : Language → DocLang
initial_doc_lang en = doc_en
initial_doc_lang zh_cn = doc_zh

abbrev pub content_lines : DocLang → List Text
content_lines doc_zh = api_doc_zh
content_lines doc_en = api_doc_en

abbrev pub content : DocLang → Text
content lang = join (codes "\n") (content_lines lang)

-- The page's two variables, of which the dashboard's language may change too.
pub record DocState : Type 0 where
  pub language : Language
  pub doc_lang : DocLang

abbrev pub open_doc : Language → DocState
open_doc language = record { language = language; doc_lang = initial_doc_lang language }

abbrev pub set_doc_lang : DocLang → DocState → DocState
set_doc_lang lang s = record s { doc_lang = lang }

abbrev pub change_language : Language → DocState → DocState
change_language language s = record s { language = language }

-- What the page puts into the document.
unfoldable pub doc_html : DocState → Option Text
unfolding render_markdown api_doc_zh api_doc_en
doc_html s = render_markdown (content s.doc_lang)
