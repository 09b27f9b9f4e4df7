-- ===== src/Pages/Markdown/Inline.antt =====
-- dashboard/src/components/doc/MarkdownRenderer.tsx: `inline`. Each of its regular expressions is a
-- function that gives, for a text in whose beginning it matches, what replaces the match and what
-- follows it.
use mathlib.Core.Option
use proxy_pool_architect.Base.{
  ℕ, zero, suc, Bool, ◌||◌, Option, none, some, [], ◌∷◌, ◌++◌, length, drop, nat_beq, if◌then◌else◌,
}
use proxy_pool_architect.Base.Text.{Text, codes, starts_with}
use proxy_pool_architect.Pages.Markdown.{escape_html}

abbrev pub Matcher : Type 0
Matcher = Text → Option (Text × Text)

-- `text.replace(regex, by)` with the flag "g", on fuel that is at least the length of the text.
unfoldable pub replace_each : ℕ → Matcher → Text → Text
replace_each zero match s = s
replace_each (suc n) match [] = []
replace_each (suc n) match (c ∷ s) = elim (match (c ∷ s)) [
  | some (by, rest) ↦ by ++ replace_each n match rest
  | none ↦ c ∷ replace_each n match s
]

abbrev pub replace_matches : Matcher → Text → Text
replace_matches match s = replace_each (length s) match s

-- What stands before the first `stop` and what stands after it.
unfoldable pub before : ℕ → Text → Option (Text × Text)
before stop [] = none
before stop (c ∷ s) =
    let later = before stop s in
    if nat_beq c stop then some ([], s) else Option.map (λ (body, rest). (c ∷ body, rest)) later

-- `[^x]+x`
unfoldable pub some_before : ℕ → Text → Option (Text × Text)
unfolding before
some_before stop [] = none
some_before stop (c ∷ s) =
    if nat_beq c stop then none else Option.map (λ (body, rest). (c ∷ body, rest)) (before stop s)

-- What `.` does not match.
abbrev pub is_terminator : ℕ → Bool
is_terminator c = nat_beq c 10 || (nat_beq c 13 || (nat_beq c 8232 || nat_beq c 8233))

-- `.*?` and the closing text
unfoldable pub lazily : Text → Text → Option (Text × Text)
lazily close [] = none
lazily close (c ∷ s) =
    let later = lazily close s in
    if starts_with close (c ∷ s)
    then some ([], drop (length close) (c ∷ s))
    else if is_terminator c
    then none
    else Option.map (λ (body, rest). (c ∷ body, rest)) later

-- `.+?` and the closing text
unfoldable pub some_lazily : Text → Text → Option (Text × Text)
unfolding lazily
some_lazily close [] = none
some_lazily close (c ∷ s) =
    if is_terminator c then none else Option.map (λ (body, rest). (c ∷ body, rest)) (lazily close s)

-- A match that stands between two tags.
abbrev pub wrapped : Text → Text → Option (Text × Text) → Option (Text × Text)
wrapped open_tag close_tag = Option.map (λ (body, rest). (open_tag ++ (body ++ close_tag), rest))

unfoldable pub code_at : Matcher
unfolding some_before
code_at [] = none
code_at (c ∷ s) =
    if nat_beq c b'`'
    then wrapped (codes "<code class=\"inline-code\">") (codes "</code>") (some_before b'`' s)
    else none

unfoldable pub bold_at : Matcher
unfolding some_lazily
bold_at s =
    if starts_with (codes "**") s
    then wrapped (codes "<strong>") (codes "</strong>") (some_lazily (codes "**") (drop 2 s))
    else none

unfoldable pub italic_at : Matcher
unfolding some_lazily
italic_at s =
    if starts_with (codes "*") s
    then wrapped (codes "<em>") (codes "</em>") (some_lazily (codes "*") (drop 1 s))
    else none

-- The tag of a link for its label and its target.
abbrev pub link : Text → Text → Text
link label target =
    codes "<a href=\""
    ++ (target ++ (codes "\" target=\"_blank\" rel=\"noopener\">" ++ (label ++ codes "</a>")))

-- What follows the label of a link.
unfoldable pub target_at : Text → Text → Option (Text × Text)
unfolding some_before
target_at label [] = none
target_at label (c ∷ s) =
    if nat_beq c b'('
    then Option.map (λ (target, rest). (link label target, rest)) (some_before b')' s)
    else none

unfoldable pub target_after : Option (Text × Text) → Option (Text × Text)
unfolding target_at
target_after none = none
target_after (some (label, rest)) = target_at label rest

unfoldable pub link_at : Matcher
unfolding some_before target_after
link_at [] = none
link_at (c ∷ s) = if nat_beq c b'[' then target_after (some_before b']' s) else none

unfoldable pub inline : Text → Text
unfolding replace_each code_at bold_at italic_at link_at
inline text =
    let coded = replace_matches code_at (escape_html text) in
    let bold = replace_matches bold_at coded in
    let italic = replace_matches italic_at bold in replace_matches link_at italic
