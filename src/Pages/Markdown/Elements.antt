-- ===== src/Pages/Markdown/Elements.antt =====
-- dashboard/src/components/doc/MarkdownRenderer.tsx: the tags in what `renderMarkdown` adds for a block.
use proxy_pool_architect.Base.{
  ℕ, zero, suc, ◌≤◌, ◌≡◌, refl, List, [], ◌∷◌, ◌++◌, append_assoc, All, arith, map,
}
use proxy_pool_architect.Base.Text.{Text, codes}
use proxy_pool_architect.Format.{decimal}
use proxy_pool_architect.Pages.Markdown.{escape_html}
use proxy_pool_architect.Pages.Markdown.Inline.{inline}
use proxy_pool_architect.Pages.Markdown.Tags.{
  opens_tag, only_tags, only_tags-append, only_tags-between, escape_html-only_tags,
}
use proxy_pool_architect.Pages.Markdown.Spans.{OnlyTags}
use proxy_pool_architect.Pages.Markdown.Safety.{inline-OnlyTags}
use proxy_pool_architect.Pages.Markdown.Lines.{join, concat_map, element}
use proxy_pool_architect.Pages.Markdown.Blocks.{
  code_html, cell_html, row_html, body_html, table_html, heading_html, item_html,
}

pub join-OnlyTags :
    (by : Text) (parts : List Text) → OnlyTags by → All OnlyTags parts → OnlyTags (join by parts)
unfolding join
join-OnlyTags by [] h all = unfold only_tags in refl
join-OnlyTags by (part ∷ []) h all = all.0
join-OnlyTags by (part ∷ next ∷ parts) h all =
    only_tags-between part by (join by (next ∷ parts)) all.0 h
      (join-OnlyTags by (next ∷ parts) h all.1)

pub concat_map-OnlyTags :
    (f : Text → Text) (parts : List Text)
    → ((part : Text) → OnlyTags (f part))
    → OnlyTags (concat_map f parts)
concat_map-OnlyTags f [] h = unfold only_tags in refl
concat_map-OnlyTags f (part ∷ parts) h =
    only_tags-append (f part) (concat_map f parts) (h part) (concat_map-OnlyTags f parts h)

escaped-OnlyTags : (lines : List Text) → All OnlyTags (map escape_html lines)
escaped-OnlyTags [] = tt
escaped-OnlyTags (line ∷ lines) = (escape_html-only_tags line, escaped-OnlyTags lines)

pub code_html-OnlyTags : (lang : Text) (lines : List Text) → OnlyTags (code_html lang lines)
unfolding only_tags opens_tag
code_html-OnlyTags lang lines =
    let body = join (codes "\n") (map escape_html lines) in
    only_tags-between (codes "<pre class=\"code-block\"><code class=\"lang-") (escape_html lang)
      (codes "\">" ++ (body ++ codes "</code></pre>")) refl (escape_html-only_tags lang)
      (only_tags-between (codes "\">") body (codes "</code></pre>") refl
        (join-OnlyTags (codes "\n") (map escape_html lines) refl (escaped-OnlyTags lines)) refl)

cells-OnlyTags :
    (open_tag close_tag : Text) (cells : List Text)
    → OnlyTags open_tag
    → OnlyTags close_tag
    → OnlyTags (concat_map (cell_html open_tag close_tag) cells)
cells-OnlyTags open_tag close_tag cells h k =
    concat_map-OnlyTags (cell_html open_tag close_tag) cells
      (λ cell. only_tags-between open_tag (inline cell) close_tag h (inline-OnlyTags cell) k)

pub body_html-OnlyTags : (rows : List (List Text)) → OnlyTags (body_html rows)
unfolding only_tags opens_tag
body_html-OnlyTags [] = refl
body_html-OnlyTags (row ∷ rows) =
    only_tags-append (row_html row) (body_html rows)
      (only_tags-between (codes "<tr>") (concat_map (cell_html (codes "<td>") (codes "</td>")) row)
        (codes "</tr>") refl (cells-OnlyTags (codes "<td>") (codes "</td>") row refl refl) refl)
      (body_html-OnlyTags rows)

pub table_html-OnlyTags : (rows : List (List Text)) → All OnlyTags (table_html rows)
unfolding only_tags opens_tag
table_html-OnlyTags [] = tt
table_html-OnlyTags (header ∷ body) = (
  refl,
  (
    only_tags-between (codes "<thead><tr>")
        (concat_map (cell_html (codes "<th>") (codes "</th>")) header) (codes "</tr></thead>") refl
        (cells-OnlyTags (codes "<th>") (codes "</th>") header refl refl) refl,
    (
      only_tags-between (codes "<tbody>") (body_html body) (codes "</tbody>") refl
          (body_html-OnlyTags body) refl,
      (refl, tt),
    ),
  ),
)

-- `<tag>text</tag>` with a text that `inline` has gone over
wrapped-OnlyTags :
    (open_tag close_tag text : Text)
    → OnlyTags open_tag
    → OnlyTags close_tag
    → OnlyTags (element open_tag close_tag (inline text))
wrapped-OnlyTags open_tag close_tag text h k =
    only_tags-between open_tag (inline text) close_tag h (inline-OnlyTags text) k

pub paragraph_html-OnlyTags :
    (text : Text) → OnlyTags (element (codes "<p>") (codes "</p>") (inline text))
unfolding only_tags opens_tag
paragraph_html-OnlyTags text = wrapped-OnlyTags (codes "<p>") (codes "</p>") text refl refl

pub quote_html-OnlyTags :
    (text : Text) → OnlyTags (element (codes "<blockquote>") (codes "</blockquote>") (inline text))
unfolding only_tags opens_tag
quote_html-OnlyTags text =
    wrapped-OnlyTags (codes "<blockquote>") (codes "</blockquote>") text refl refl

pub list_html-OnlyTags :
    (items : List Text)
    → OnlyTags (element (codes "<ul>") (codes "</ul>") (concat_map item_html items))
unfolding only_tags opens_tag
list_html-OnlyTags items =
    only_tags-between (codes "<ul>") (concat_map item_html items) (codes "</ul>") refl
      (concat_map-OnlyTags item_html items
        (λ item. wrapped-OnlyTags (codes "<li>") (codes "</li>") item refl refl))
      refl

-- A heading of one of the six levels.
heading_html-OnlyTags_of :
    (level : ℕ) (text : Text)
    → OnlyTags (codes "<h" ++ (decimal level ++ codes ">"))
    → OnlyTags (codes "</h" ++ (decimal level ++ codes ">"))
    → OnlyTags (heading_html level text)
heading_html-OnlyTags_of level text h k = rw regroup (
    only_tags-between (codes "<h" ++ (decimal level ++ codes ">")) (inline text)
      (codes "</h" ++ (decimal level ++ codes ">")) h (inline-OnlyTags text) k)
  where
    regroup :
        heading_html level text
        ≡ (codes "<h" ++ (decimal level ++ codes ">"))
          ++ (inline text ++ (codes "</h" ++ (decimal level ++ codes ">")))
    regroup = simp append_assoc

pub heading_html-OnlyTags :
    (level : ℕ) (text : Text) → 1 ≤ level → level ≤ 6 → OnlyTags (heading_html level text)
unfolding only_tags opens_tag decimal
heading_html-OnlyTags zero text h k = absurd (omega arith)
heading_html-OnlyTags (suc zero) text h k = heading_html-OnlyTags_of 1 text refl refl
heading_html-OnlyTags (suc (suc zero)) text h k = heading_html-OnlyTags_of 2 text refl refl
heading_html-OnlyTags (suc (suc (suc zero))) text h k = heading_html-OnlyTags_of 3 text refl refl
heading_html-OnlyTags (suc (suc (suc (suc zero)))) text h k =
    heading_html-OnlyTags_of 4 text refl refl
heading_html-OnlyTags (suc (suc (suc (suc (suc zero))))) text h k =
    heading_html-OnlyTags_of 5 text refl refl
heading_html-OnlyTags (suc (suc (suc (suc (suc (suc zero)))))) text h k =
    heading_html-OnlyTags_of 6 text refl refl
heading_html-OnlyTags (suc (suc (suc (suc (suc (suc (suc n))))))) text h k = absurd (omega arith)
