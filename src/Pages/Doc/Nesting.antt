-- ===== src/Pages/Doc/Nesting.antt =====
-- dashboard/src/docs/api-docs.ts as dashboard/src/pages/DocPage.tsx renders it.
use proxy_pool_architect.Base.{
  ℕ, Bool, true, false, ◌&&◌, ◌≡◌, refl, sym, ap, ◌∙◌, Option, none, some, List, [], ◌∷◌, length,
  nat_beq, reverse, if◌then◌else◌,
}
use proxy_pool_architect.Base.Text.{Text, codes, text_beq}
use proxy_pool_architect.Pages.Markdown.Lines.{split_on}
use proxy_pool_architect.Pages.Markdown.Blocks.{cells_of, has_bar, render_markdown}
use proxy_pool_architect.Pages.Markdown.Spans.{OnlyTags}
use proxy_pool_architect.Pages.Markdown.Rendering.{render_markdown-OnlyTags}
use proxy_pool_architect.Pages.Doc.{
  DocLang, doc_zh, doc_en, content, content_lines, DocState, doc_html,
}
use proxy_pool_architect.Pages.Doc.Chinese.{api_doc_zh}
use proxy_pool_architect.Pages.Doc.English.{api_doc_en}

abbrev name_of : Text → Text
name_of [] = []
name_of (c ∷ s) = let rest = name_of s in if nat_beq c b' ' then [] else c ∷ rest

-- The elements that are open after a tag, `none` if it closes another than the innermost.
abbrev closed : Text → List Text → Option (List Text)
closed name [] = none
closed name (innermost ∷ outer) = if text_beq name innermost then some outer else none

abbrev after_tag : Text → List Text → Option (List Text)
after_tag [] stack = none
after_tag (c ∷ s) stack =
    if nat_beq c b'/'
    then closed s stack
    else if text_beq (c ∷ s) (codes "hr /")
    then some stack
    else some (name_of (c ∷ s) ∷ stack)

abbrev is_empty : List Text → Bool
is_empty [] = true
is_empty (x ∷ xs) = false

-- Whether each tag of a text is closed, the innermost first; `tag` is what has been read of a tag.
unfoldable pub nested : (stack : List Text) (tag : Option Text) → Text → Bool
nested stack none [] = is_empty stack
nested stack (some tag) [] = false
nested stack none (c ∷ s) = if nat_beq c b'<' then nested stack (some []) s else nested stack none s
nested stack (some tag) (c ∷ s) = elim (nat_beq c b'>') [
  | true ↦ elim (after_tag (reverse tag) stack) [
    | some stack' ↦ nested stack' none s
    | none ↦ false
  ]
  | false ↦ nested stack (some (c ∷ tag)) s
]

abbrev test : Option Text → Bool
test none = false
test (some html) = nested [] none html

-- Whether consecutive lines with bars have as many cells; `cells` is the number of the line before.
abbrev same_count : Option ℕ → ℕ → Bool
same_count none n = true
same_count (some m) n = nat_beq m n

unfoldable pub rows_fit : (cells : Option ℕ) → List Text → Bool
rows_fit cells [] = true
rows_fit cells (line ∷ lines) =
    let n = length (cells_of line) in
    if has_bar line then same_count cells n && rows_fit (some n) lines else rows_fit none lines

test_rendered : (lang : DocLang) → test (render_markdown (content lang)) ≡ true
unfolding nested render_markdown api_doc_zh api_doc_en
test_rendered doc_zh = refl
test_rendered doc_en = refl

rows_fit-content_lines : (lang : DocLang) → rows_fit none (content_lines lang) ≡ true
unfolding rows_fit split_on api_doc_zh api_doc_en
rows_fit-content_lines doc_zh = refl
rows_fit-content_lines doc_en = refl

-- Whichever document is chosen, the page renders it: in what comes of it the tags are those of the
-- renderer, and each is closed, the innermost first; and in each table of the document all rows have as
-- many cells as the header.
pub doc_html-nested :
    (s : DocState)
    → ((html : Text) × (doc_html s ≡ some html) × OnlyTags html × (nested [] none html ≡ true))
      × (rows_fit none (content_lines s.doc_lang) ≡ true)
unfolding doc_html
doc_html-nested s =
    let (html, rendered, only) = render_markdown-OnlyTags (content s.doc_lang) in
    (
      (html, rendered, only, sym (ap test rendered) ∙ test_rendered s.doc_lang),
      rows_fit-content_lines s.doc_lang,
    )
