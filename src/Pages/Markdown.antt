-- ===== src/Pages/Markdown.antt =====
-- dashboard/src/components/doc/MarkdownRenderer.tsx: how text becomes HTML.
pub mod Escaping
pub mod Inline
pub mod Tags
pub mod Spans
pub mod Safety
pub mod Lines
pub mod Blocks
pub mod Elements
pub mod Rendering
pub mod Verbatim
pub mod Fuel
use proxy_pool_architect.Base.{ℕ, Bool, List, [], ◌∷◌, ◌++◌, if◌then◌else◌, nat_beq}
use proxy_pool_architect.Base.Text.{Text, codes}

-- `text.replace(/c/g, by)` for a single character.
unfoldable pub replace_all : (c : ℕ) → (by : Text) → Text → Text
replace_all c by [] = []
replace_all c by (x ∷ s) =
    let rest = replace_all c by s in if nat_beq x c then by ++ rest else x ∷ rest

unfoldable pub escape_html : Text → Text
unfolding replace_all
escape_html text =
    let ampersands = replace_all b'&' (codes "&amp;") text in
    let opened = replace_all b'<' (codes "&lt;") ampersands in
    let closed = replace_all b'>' (codes "&gt;") opened in replace_all b'"' (codes "&quot;") closed
