-- ===== src/Pages/Markdown/Lines.antt =====
-- dashboard/src/components/doc/MarkdownRenderer.tsx: what the blocks of `renderMarkdown` do with lines.
use proxy_pool_architect.Base.{ℕ, Bool, List, [], ◌∷◌, ◌++◌, nat_beq, if◌then◌else◌}
use proxy_pool_architect.Base.Text.{Text}

-- `text.split(c)`
abbrev pub add_first : ℕ → List Text → List Text
add_first x [] = (x ∷ []) ∷ []
add_first x (part ∷ parts) = (x ∷ part) ∷ parts

unfoldable pub split_on : ℕ → Text → List Text
split_on c [] = [] ∷ []
split_on c (x ∷ s) =
    let parts = split_on c s in if nat_beq x c then [] ∷ parts else add_first x parts

-- `parts.join(by)`
unfoldable pub join : Text → List Text → Text
join by [] = []
join by (part ∷ []) = part
join by (part ∷ next ∷ parts) = part ++ (by ++ join by (next ∷ parts))

abbrev pub concat_map : (Text → Text) → List Text → Text
concat_map f [] = []
concat_map f (part ∷ parts) = f part ++ concat_map f parts

-- `<tag>body</tag>`
abbrev pub element : (open_tag close_tag body : Text) → Text
element open_tag close_tag body = open_tag ++ (body ++ close_tag)

-- What a block adds to the output, and the lines after it.
abbrev pub Block : Type 0
Block = List Text × List Text

abbrev pub one : Text → List Text → Block
one html rest = (html ∷ [], rest)

-- The lines up to the first that fails a test, and the others.
abbrev pub span_lines : (Text → Bool) → List Text → List Text × List Text
span_lines p [] = ([], [])
span_lines p (line ∷ rest) =
    let later = span_lines p rest in if p line then (line ∷ later.0, later.1) else ([], line ∷ rest)
