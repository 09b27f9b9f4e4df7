-- ===== src/Pages/Markdown/Blocks.antt =====
-- dashboard/src/components/doc/MarkdownRenderer.tsx: `renderMarkdown`. Its loop over the lines is a
-- recursion on the lines that are left, on fuel; `none` says that the fuel is used up.
use mathlib.Core.Option
use proxy_pool_architect.Base.{
  ℕ, zero, suc, Bool, false, not, ◌&&◌, ◌||◌, Option, none, some, List, [], ◌∷◌, ◌++◌, map, length,
  drop, any, last?, nat_beq, if◌then◌else◌,
}
use proxy_pool_architect.Base.Text.{
  Text, codes, starts_with, includes, is_space, trim_start, trim, truthy,
}
use proxy_pool_architect.Format.{decimal}
use proxy_pool_architect.Pages.Markdown.{escape_html}
use proxy_pool_architect.Pages.Markdown.Lines.{
  split_on, join, concat_map, element, Block, one, span_lines,
}
use proxy_pool_architect.Pages.Markdown.Inline.{is_terminator, inline}

abbrev pub is_fence : Text → Bool
is_fence line = starts_with (codes "```") (trim_start line)

abbrev pub code_html : Text → List Text → Text
code_html lang code_lines =
    codes "<pre class=\"code-block\"><code class=\"lang-"
    ++ (escape_html lang
        ++ (codes "\">"
            ++ (join (codes "\n") (map escape_html code_lines) ++ codes "</code></pre>")))

unfoldable pub code_block : Text → List Text → Block
unfolding join escape_html
code_block line rest =
    let body = span_lines (λ l. not (is_fence l)) rest in
    one (code_html (trim (drop 3 (trim_start line))) body.0) (drop 1 body.1)

-- `/^---+\s*$/`
abbrev pub skip_dashes : Text → Text
skip_dashes [] = []
skip_dashes (c ∷ s) = if nat_beq c b'-' then skip_dashes s else c ∷ s

unfoldable pub is_rule : Text → Bool
is_rule s = starts_with (codes "---") s && not (any (λ c. not (is_space c)) (skip_dashes s))

-- `/^[\s|:-]+$/`
abbrev pub is_table_mark : ℕ → Bool
is_table_mark c = is_space c || (nat_beq c b'|' || (nat_beq c b':' || nat_beq c b'-'))

unfoldable pub is_separator : Text → Bool
is_separator line = truthy line && not (any (λ c. not (is_table_mark c)) line)

abbrev pub has_bar : Text → Bool
has_bar line = includes (codes "|") line

unfoldable pub next_is_separator : List Text → Bool
unfolding is_separator
next_is_separator [] = false
next_is_separator (line ∷ lines) = is_separator line

-- `cells.slice(1, -1)`
abbrev pub without_last : List Text → List Text
without_last [] = []
without_last (x ∷ []) = []
without_last (x ∷ y ∷ xs) = x ∷ without_last (y ∷ xs)

abbrev pub cells_of : Text → List Text
cells_of line = without_last (drop 1 (map trim (split_on b'|' line)))

abbrev pub rows_of : List Text → List (List Text)
rows_of [] = []
rows_of (line ∷ lines) =
    let rest = rows_of lines in if is_separator line then rest else cells_of line ∷ rest

abbrev pub cell_html : (open_tag close_tag cell : Text) → Text
cell_html open_tag close_tag cell = element open_tag close_tag (inline cell)

abbrev pub row_html : List Text → Text
row_html cells =
    element (codes "<tr>") (codes "</tr>")
      (concat_map (cell_html (codes "<td>") (codes "</td>")) cells)

abbrev pub body_html : List (List Text) → Text
body_html [] = []
body_html (row ∷ rows) = row_html row ++ body_html rows

abbrev pub table_html : List (List Text) → List Text
table_html [] = []
table_html (header ∷ body) =
    codes "<div class=\"table-wrap\"><table>"
    ∷ element (codes "<thead><tr>") (codes "</tr></thead>")
        (concat_map (cell_html (codes "<th>") (codes "</th>")) header)
    ∷ element (codes "<tbody>") (codes "</tbody>") (body_html body)
    ∷ codes "</table></div>"
    ∷ []

unfoldable pub table_block : List Text → Block
unfolding split_on is_separator inline
table_block lines = let table = span_lines has_bar lines in (table_html (rows_of table.0), table.1)

-- `/^(#{1,6})\s+(.+)$/`. Where only white space follows the first one, its last character is the text.
abbrev pub hashes : ℕ → Text → ℕ × Text
hashes zero s = (0, s)
hashes (suc n) [] = (0, [])
hashes (suc n) (c ∷ s) =
    let later = hashes n s in if nat_beq c b'#' then (suc later.0, later.1) else (0, c ∷ s)

abbrev pub on_one_line : Text → Option Text
on_one_line s = if any is_terminator s then none else some s

abbrev pub last_blank : Option ℕ → Option Text
last_blank none = none
last_blank (some c) = on_one_line (c ∷ [])

unfoldable pub heading_text : Text → Option Text
heading_text [] = none
heading_text (c ∷ s) =
    if is_space c
    then (if truthy (trim_start s) then on_one_line (trim_start s) else last_blank (last? s))
    else none

unfoldable pub heading_at : Text → Option (ℕ × Text)
unfolding heading_text
heading_at line =
    let (level, s) = hashes 6 line in
    if nat_beq level 0 then none else Option.map (λ text. (level, text)) (heading_text s)

abbrev pub heading_html : ℕ → Text → Text
heading_html level text =
    codes "<h"
    ++ (decimal level
        ++ (codes ">" ++ (inline text ++ (codes "</h" ++ (decimal level ++ codes ">")))))

abbrev pub is_quote : Text → Bool
is_quote line = starts_with (codes "> ") (trim_start line)

unfoldable pub quote_block : List Text → Block
unfolding join inline
quote_block lines =
    let quote = span_lines is_quote lines in
    one
      (element (codes "<blockquote>") (codes "</blockquote>")
        (inline (join (codes " ") (map (λ line. drop 2 (trim_start line)) quote.0))))
      quote.1

-- `/^\s*[-*]\s/`
abbrev pub begins_item : Text → Bool
begins_item [] = false
begins_item (c ∷ []) = false
begins_item (c ∷ d ∷ s) = (nat_beq c b'-' || nat_beq c b'*') && is_space d

abbrev pub is_item : Text → Bool
is_item line = begins_item (trim_start line)

abbrev pub item_html : Text → Text
item_html item = element (codes "<li>") (codes "</li>") (inline item)

unfoldable pub list_block : List Text → Block
unfolding inline
list_block lines =
    let items = span_lines is_item lines in
    one
      (element (codes "<ul>") (codes "</ul>")
        (concat_map item_html (map (λ line. drop 2 (trim_start line)) items.0)))
      items.1

unfoldable pub paragraph : Text → List Text → Block
unfolding inline
paragraph line rest =
    if truthy (trim line)
    then one (element (codes "<p>") (codes "</p>") (inline line)) rest
    else ([], rest)

-- What a line that is no heading begins.
unfoldable pub other_block : Text → List Text → Block
unfolding quote_block list_block paragraph
other_block line rest =
    if is_quote line
    then quote_block (line ∷ rest)
    else if is_item line
    then list_block (line ∷ rest)
    else paragraph line rest

abbrev pub headed : Text → List Text → Option (ℕ × Text) → Block
headed line rest none = other_block line rest
headed line rest (some (level, text)) = one (heading_html level text) rest

-- One round of the loop.
unfoldable pub block : Text → List Text → Block
unfolding code_block is_rule next_is_separator table_block heading_at other_block inline decimal
block line rest =
    if is_fence line
    then code_block line rest
    else if is_rule (trim line)
    then one (codes "<hr />") rest
    else if has_bar line && next_is_separator rest
    then table_block (line ∷ rest)
    else headed line rest (heading_at line)

unfoldable pub render_from : ℕ → List Text → Option (List Text)
unfolding block
render_from fuel [] = some []
render_from zero (line ∷ rest) = none
render_from (suc fuel) (line ∷ rest) =
    let (html, later) = block line rest in Option.map (λ out. html ++ out) (render_from fuel later)

unfoldable pub render_markdown : Text → Option Text
unfolding split_on render_from join
render_markdown src =
    let lines = split_on b'\n' src in
    Option.map (join (codes "\n")) (render_from (length lines) lines)
