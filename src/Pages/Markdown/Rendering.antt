-- ===== src/Pages/Markdown/Rendering.antt =====
-- dashboard/src/components/doc/MarkdownRenderer.tsx: the loop of `renderMarkdown` ends, and what it puts
-- together has only tags of the renderer.
use mathlib.Core.Option
use proxy_pool_architect.Base.{
  ℕ, zero, suc, ◌≤◌, Bool, true, false, not, ◌≡◌, refl, ◌&&◌, Option, none, some, List, [], ◌∷◌,
  ◌++◌, All, arith, map, length, drop, nat_beq, if◌then◌else◌,
}
use proxy_pool_architect.Base.Text.{Text, codes, trim, trim_start, truthy}
use proxy_pool_architect.Pages.Markdown.Inline.{inline}
use proxy_pool_architect.Pages.Markdown.Tags.{opens_tag, only_tags}
use proxy_pool_architect.Pages.Markdown.Spans.{OnlyTags}
use proxy_pool_architect.Pages.Markdown.Elements.{
  join-OnlyTags, code_html-OnlyTags, table_html-OnlyTags, paragraph_html-OnlyTags,
  quote_html-OnlyTags, list_html-OnlyTags, heading_html-OnlyTags,
}
use proxy_pool_architect.Pages.Markdown.Lines.{split_on, join, element, Block, one, span_lines}
use proxy_pool_architect.Pages.Markdown.Blocks.{
  is_fence, code_block, is_rule, has_bar, next_is_separator, rows_of, table_block, hashes,
  heading_text, heading_at, heading_html, is_quote, quote_block, is_item, list_block, paragraph,
  other_block, headed, block, render_from, render_markdown,
}

-- A block takes its line and no fewer of those that follow it, and adds only tags of the renderer.
record IsSound (rest : List Text) (b : Block) : Type 0 where
  shorter : length b.1 ≤ length rest
  tidy : All OnlyTags b.0

span_lines-shorter :
    (p : Text → Bool) (lines : List Text) → length (span_lines p lines).1 ≤ length lines
span_lines-shorter p [] = omega arith
span_lines-shorter p (line ∷ rest) = ground (arith, span_lines-shorter p rest)

span_lines-cons :
    (p : Text → Bool) (line : Text) (rest : List Text)
    → p line ≡ true
    → length (span_lines p (line ∷ rest)).1 ≤ length rest
span_lines-cons p line rest h = rw h (span_lines-shorter p rest)

length-drop_one : {A : Type 0} (xs : List A) → length (drop 1 xs) ≤ length xs
length-drop_one [] = omega arith
length-drop_one (x ∷ xs) = omega arith

code_block-IsSound : (line : Text) (rest : List Text) → IsSound rest (code_block line rest)
unfolding code_block
code_block-IsSound line rest = record {
  shorter = omega (
    arith,
    span_lines-shorter (λ l. not (is_fence l)) rest,
    length-drop_one (span_lines (λ l. not (is_fence l)) rest).1,
  );
  tidy = (
    code_html-OnlyTags (trim (drop 3 (trim_start line)))
        (span_lines (λ l. not (is_fence l)) rest).0,
    tt,
  );
}

table_block-IsSound :
    (line : Text) (rest : List Text)
    → has_bar line ≡ true
    → IsSound rest (table_block (line ∷ rest))
unfolding table_block
table_block-IsSound line rest bar = record {
  shorter = span_lines-cons has_bar line rest bar;
  tidy = table_html-OnlyTags (rows_of (span_lines has_bar (line ∷ rest)).0);
}

quote_block-IsSound :
    (line : Text) (rest : List Text)
    → is_quote line ≡ true
    → IsSound rest (quote_block (line ∷ rest))
unfolding quote_block
quote_block-IsSound line rest quote = record {
  shorter = span_lines-cons is_quote line rest quote;
  tidy = (
    quote_html-OnlyTags
        (join (codes " ") (map (λ l. drop 2 (trim_start l)) (span_lines is_quote (line ∷ rest)).0)),
    tt,
  );
}

list_block-IsSound :
    (line : Text) (rest : List Text) → is_item line ≡ true → IsSound rest (list_block (line ∷ rest))
unfolding list_block
list_block-IsSound line rest item = record {
  shorter = span_lines-cons is_item line rest item;
  tidy = (
    list_html-OnlyTags (map (λ l. drop 2 (trim_start l)) (span_lines is_item (line ∷ rest)).0),
    tt,
  );
}

if-IsSound :
    (test : Bool) (rest : List Text) (b b' : Block)
    → (test ≡ true → IsSound rest b)
    → (test ≡ false → IsSound rest b')
    → IsSound rest (if test then b else b')
if-IsSound true rest b b' h k = h refl
if-IsSound false rest b b' h k = k refl

one-IsSound : (html : Text) (rest : List Text) → OnlyTags html → IsSound rest (one html rest)
one-IsSound html rest h = record { shorter = omega arith; tidy = (h, tt) }

paragraph-IsSound : (line : Text) (rest : List Text) → IsSound rest (paragraph line rest)
unfolding paragraph
paragraph-IsSound line rest =
    if-IsSound (truthy (trim line)) rest _ _
      (λ h.
        one-IsSound (element (codes "<p>") (codes "</p>") (inline line)) rest
          (paragraph_html-OnlyTags line))
      (λ h. record { shorter = omega arith; tidy = tt })

other_block-IsSound : (line : Text) (rest : List Text) → IsSound rest (other_block line rest)
unfolding other_block
other_block-IsSound line rest =
    if-IsSound (is_quote line) rest _ _ (quote_block-IsSound line rest) (λ no_quote.
      if-IsSound (is_item line) rest _ _ (list_block-IsSound line rest)
        (λ no_item. paragraph-IsSound line rest))

hashes-le : (n : ℕ) (s : Text) → (hashes n s).0 ≤ n
hashes-le zero s = omega arith
hashes-le (suc n) [] = omega arith
hashes-le (suc n) (c ∷ s) = ground (arith, hashes-le n s)

-- The level of a heading is one of six.
IsLevel : Option (ℕ × Text) → Type 0
IsLevel none = Unit
IsLevel (some (level, text)) = (1 ≤ level) × (level ≤ 6)

heading_at-IsLevel : (line : Text) → IsLevel (heading_at line)
unfolding heading_at IsLevel
heading_at-IsLevel line =
    level_of (hashes 6 line).0 (heading_text (hashes 6 line).1) (hashes-le 6 line)
  where
    mapped :
        (level : ℕ) (text : Option Text)
        → 1 ≤ level
        → level ≤ 6
        → IsLevel (Option.map (λ t. (level, t)) text)
    mapped level none h k = tt
    mapped level (some t) h k = (h, k)

    level_of :
        (level : ℕ) (text : Option Text)
        → level ≤ 6
        → IsLevel (if nat_beq level 0 then none else Option.map (λ t. (level, t)) text)
    level_of zero text k = tt
    level_of (suc level) text k =
        let positive : nat_beq (suc level) 0 ≡ false = ground arith in
        rw positive (mapped (suc level) text (omega arith) k)

headed-IsSound :
    (line : Text) (rest : List Text) (heading : Option (ℕ × Text))
    → IsLevel heading
    → IsSound rest (headed line rest heading)
unfolding IsLevel
headed-IsSound line rest none h = other_block-IsSound line rest
headed-IsSound line rest (some (level, text)) h =
    one-IsSound (heading_html level text) rest (heading_html-OnlyTags level text h.0 h.1)

block-IsSound : (line : Text) (rest : List Text) → IsSound rest (block line rest)
unfolding block only_tags opens_tag
block-IsSound line rest =
    if-IsSound (is_fence line) rest _ _ (λ fence. code_block-IsSound line rest)
      (λ no_fence.
        if-IsSound (is_rule (trim line)) rest _ _ (λ rule. one-IsSound (codes "<hr />") rest refl)
          (λ no_rule.
            if-IsSound (has_bar line && next_is_separator rest) rest _ _
              (λ table. table_block-IsSound line rest (ground arith))
              (λ no_table. headed-IsSound line rest (heading_at line) (heading_at-IsLevel line))))

-- The loop has ended, with only tags of the renderer.
abbrev pub Rendered : Option (List Text) → Type 0
Rendered none = ⊥
Rendered (some out) = All OnlyTags out

All-append : (s t : List Text) → All OnlyTags s → All OnlyTags t → All OnlyTags (s ++ t)
All-append [] t h k = k
All-append (x ∷ s) t h k = (h.0, All-append s t h.1 k)

prefixed-Rendered :
    (html : List Text) (out : Option (List Text))
    → All OnlyTags html
    → Rendered out
    → Rendered (Option.map (λ o. html ++ o) out)
prefixed-Rendered html none h r = r
prefixed-Rendered html (some out) h r = All-append html out h r

render_from-Rendered :
    (fuel : ℕ) (lines : List Text) → length lines ≤ fuel → Rendered (render_from fuel lines)
unfolding render_from
render_from-Rendered fuel [] h = tt
render_from-Rendered zero (line ∷ rest) h = absurd (omega arith)
render_from-Rendered (suc fuel) (line ∷ rest) h =
    let sound = block-IsSound line rest in
    prefixed-Rendered (block line rest).0 (render_from fuel (block line rest).1) sound.tidy
      (render_from-Rendered fuel (block line rest).1 (omega (arith, sound.shorter)))

-- For every document, `renderMarkdown` ends and gives a text in which each opening bracket begins one
-- of the tags that the renderer writes itself: no tag of the document gets through, whatever its
-- blocks, code, emphasis and links are.
pub render_markdown-OnlyTags :
    (src : Text) → (html : Text) × (render_markdown src ≡ some html) × OnlyTags html
unfolding render_markdown only_tags opens_tag
render_markdown-OnlyTags src =
    let lines = split_on b'\n' src in
    joined (render_from (length lines) lines)
      (render_from-Rendered (length lines) lines (omega arith))
  where
    joined :
        (out : Option (List Text))
        → Rendered out
        → (html : Text) × (Option.map (join (codes "\n")) out ≡ some html) × OnlyTags html
    joined none r = absurd r
    joined (some out) r = (join (codes "\n") out, refl, join-OnlyTags (codes "\n") out refl r)
