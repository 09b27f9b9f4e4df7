-- ===== src/Examples/Documents.antt =====
-- The Markdown renderer (dashboard/src/components/doc/MarkdownRenderer.tsx) on concrete texts.
use proxy_pool_architect.Base.{◌≡◌, refl, true, some, none, []}
use proxy_pool_architect.Base.Text.{Text, codes}
use proxy_pool_architect.Pages.Markdown.{escape_html}
use proxy_pool_architect.Pages.Markdown.Escaping.{decode}
use proxy_pool_architect.Pages.Markdown.Inline.{inline}
use proxy_pool_architect.Pages.Markdown.Spans.{OnlyTags}
use proxy_pool_architect.Pages.Markdown.Blocks.{heading_at, render_markdown}
use proxy_pool_architect.Pages.Markdown.Rendering.{render_markdown-OnlyTags}
use proxy_pool_architect.I18n.{zh_cn}
use proxy_pool_architect.ApiClient.Client.{live}
use proxy_pool_architect.ApiClient.Operations.{run, deletion}
use proxy_pool_architect.Pages.Doc.{open_doc, doc_html, doc_en}
use proxy_pool_architect.Pages.Doc.Endpoints.{AreDocumented, run-AreDocumented}
use proxy_pool_architect.Examples.Samples.{browser, listing_server, no_state}
use proxy_pool_architect.Pages.Doc.Chinese.{api_doc_zh}
use proxy_pool_architect.Pages.Doc.Nesting.{nested, rows_fit, doc_html-nested}
use proxy_pool_architect.Pages.Markdown.Verbatim.{inline_plain}

inline_run :
    inline (codes "a **b** `c<d` *e* [f](g) ** *")
    ≡ codes
        "a <strong>b</strong> <code class=\"inline-code\">c&lt;d</code> <em>e</em> <a href=\"g\" target=\"_blank\" rel=\"noopener\">f</a> <em>* </em>"
unfolding inline escape_html
inline_run = refl

-- A quotation mark gets into the target of a link by way of inline code.
inline_code_in_target :
    inline (codes "[a](`b`)")
    ≡ codes
        "<a href=\"<code class=\"inline-code\">b</code>\" target=\"_blank\" rel=\"noopener\">a</a>"
unfolding inline escape_html
inline_code_in_target = refl

abbrev document : Text
document =
    codes
      "# T\n\n- a\n- b\n> q\n> r\n---\n|x|y|\n|-|-|\n|1|<b>|\ntext\n```js\n# no\n```\n####### seven"

abbrev document_html : Text
document_html =
    codes
      "<h1>T</h1>\n<ul><li>a</li><li>b</li></ul>\n<blockquote>q r</blockquote>\n<hr />\n<div class=\"table-wrap\"><table>\n<thead><tr><th>x</th><th>y</th></tr></thead>\n<tbody><tr><td>1</td><td>&lt;b&gt;</td></tr></tbody>\n</table></div>\n<p>text</p>\n<pre class=\"code-block\"><code class=\"lang-js\"># no</code></pre>\n<p>####### seven</p>"

render_markdown_run : render_markdown document ≡ some document_html
unfolding render_markdown escape_html
render_markdown_run = refl

heading_blank : heading_at (codes "#  ") ≡ some (1, codes " ")
unfolding heading_at
heading_blank = refl

heading_bare : heading_at (codes "# ") ≡ none
unfolding heading_at
heading_bare = refl

render_markdown-OnlyTags_example :
    (html : Text) × (render_markdown document ≡ some html) × OnlyTags html
render_markdown-OnlyTags_example = render_markdown-OnlyTags document

inline_plain_example :
    (inline (codes "a < b") ≡ escape_html (codes "a < b"))
    × (decode none (inline (codes "a < b")) ≡ codes "a < b")
inline_plain_example = inline_plain (codes "a < b") (refl, (refl, (refl, (refl, (refl, tt)))))

doc_html-nested_example :
    ((html : Text) × (doc_html (open_doc zh_cn) ≡ some html)
      × OnlyTags html
      × (nested [] none html ≡ true))
    × (rows_fit none api_doc_zh ≡ true)
doc_html-nested_example = doc_html-nested (open_doc zh_cn)

run-AreDocumented_example :
    AreDocumented doc_en (run browser listing_server 6000 live (deletion (codes "a")) no_state).sent
run-AreDocumented_example =
    run-AreDocumented browser listing_server 6000 (deletion (codes "a")) no_state doc_en tt
