-- ===== src/Pages/Markdown/Verbatim.antt =====
-- dashboard/src/components/doc/MarkdownRenderer.tsx: what the renderer leaves as it is.
use proxy_pool_architect.Base.{
  ℕ, zero, suc, Bool, true, false, not, ◌≡◌, refl, ap, ◌∙◌, none, List, [], ◌∷◌, ◌++◌, All, drop,
  inl, inr, Bool-cases, nat_beq,
}
use proxy_pool_architect.Base.Text.{Text, trim, trim_start}
use proxy_pool_architect.Pages.Markdown.{escape_html}
use proxy_pool_architect.Pages.Markdown.Escaping.{
  decode, escaped, escape_html-cons, All-append, escape_html_lem,
}
use proxy_pool_architect.Pages.Markdown.Inline.{
  Matcher, replace_each, code_at, bold_at, italic_at, link_at, inline,
}
use proxy_pool_architect.Pages.Markdown.Tags.{is_mark, IsPlain}
use proxy_pool_architect.Pages.Markdown.Spans.{IsTidy, replace_each-none}
use proxy_pool_architect.Pages.Markdown.Safety.{
  code_at-IsTidy, bold_at-IsTidy, italic_at-IsTidy, link_at-IsTidy,
}
use proxy_pool_architect.Pages.Markdown.Lines.{span_lines}
use proxy_pool_architect.Pages.Markdown.Blocks.{is_fence, code_html, code_block, block}

replace_each_plain :
    (match : Matcher) → IsTidy match → (n : ℕ) (s : Text) → IsPlain s → replace_each n match s ≡ s
replace_each_plain match tidy zero s h = unfold replace_each in refl
replace_each_plain match tidy (suc n) [] h = unfold replace_each in refl
replace_each_plain match tidy (suc n) (c ∷ s) h =
    replace_each-none match n c s (tidy.at_mark c s h.0)
    ∙ ap (◌∷◌ c) (replace_each_plain match tidy n s h.1)

escaped-IsPlain : (c : ℕ) → is_mark c ≡ false → IsPlain (escaped c)
escaped-IsPlain c h = elim (Bool-cases (nat_beq c b'&')) [
  | inl amp ↦ rw amp (refl, (refl, (refl, (refl, (refl, tt)))))
  | inr no_amp ↦ elim (Bool-cases (nat_beq c b'<')) [
    | inl lt ↦ rw (no_amp, lt) (refl, (refl, (refl, (refl, tt))))
    | inr no_lt ↦ elim (Bool-cases (nat_beq c b'>')) [
      | inl gt ↦ rw (no_amp, no_lt, gt) (refl, (refl, (refl, (refl, tt))))
      | inr no_gt ↦ elim (Bool-cases (nat_beq c b'"')) [
        | inl quote ↦
            rw (no_amp, no_lt, no_gt, quote) (refl, (refl, (refl, (refl, (refl, (refl, tt))))))
        | inr no_quote ↦ rw (no_amp, no_lt, no_gt, no_quote) (h, tt)
      ]
    ]
  ]
]

escape_html-IsPlain : (s : Text) → IsPlain s → IsPlain (escape_html s)
escape_html-IsPlain [] h = unfold escape_html in tt
escape_html-IsPlain (c ∷ s) h = rw (escape_html-cons c s) (
    All-append (λ d. is_mark d ≡ false) (escaped c) (escape_html s) (escaped-IsPlain c h.0)
      (escape_html-IsPlain s h.1))

-- A text without backticks, stars, brackets and parentheses is only escaped by `inline`, and a browser
-- that reads the character references of the result gets the text back.
pub inline_plain :
    (text : Text)
    → IsPlain text
    → (inline text ≡ escape_html text) × (decode none (inline text) ≡ text)
unfolding inline
inline_plain text plain = (same, ap (decode none) same ∙ (escape_html_lem text).1)
  where
    escaped_plain : IsPlain (escape_html text)
    escaped_plain = escape_html-IsPlain text plain

    same : inline text ≡ escape_html text
    same =
        rw
          (
            replace_each_plain code_at code_at-IsTidy _ (escape_html text) escaped_plain,
            replace_each_plain bold_at bold_at-IsTidy _ (escape_html text) escaped_plain,
            replace_each_plain italic_at italic_at-IsTidy _ (escape_html text) escaped_plain,
          )
          (replace_each_plain link_at link_at-IsTidy _ (escape_html text) escaped_plain)

span_lines-append :
    (p : Text → Bool) (lines : List Text) (stop : Text) (rest : List Text)
    → All (λ line. p line ≡ true) lines
    → p stop ≡ false
    → span_lines p (lines ++ stop ∷ rest) ≡ (lines, stop ∷ rest)
span_lines-append p [] stop rest h k = rw k refl
span_lines-append p (line ∷ lines) stop rest h k =
    rw (h.0, span_lines-append p lines stop rest h.1 k) refl

span_lines-All :
    (p : Text → Bool) (lines : List Text)
    → All (λ line. p line ≡ true) lines
    → span_lines p lines ≡ (lines, [])
span_lines-All p [] h = refl
span_lines-All p (line ∷ lines) h = rw (h.0, span_lines-All p lines h.1) refl

abbrev pub HasNoFence : List Text → Type 0
HasNoFence lines = All (λ line. not (is_fence line) ≡ true) lines

-- A fence takes the lines up to the next one, escaped and otherwise as they are, whatever blocks they
-- would begin, and the loop goes on behind that fence. If none follows, it takes all lines to the end.
pub block_code :
    (line : Text) (body : List Text) (close : Text) (rest : List Text)
    → is_fence line ≡ true
    → HasNoFence body
    → is_fence close ≡ true
    → let html = code_html (trim (drop 3 (trim_start line))) body in
      (block line (body ++ close ∷ rest) ≡ (html ∷ [], rest)) × (block line body ≡ (html ∷ [], []))
unfolding block code_block
block_code line body close rest fence inside closing =
    rw
      (
        fence,
        span_lines-append (λ l. not (is_fence l)) body close rest inside (ap not closing),
        span_lines-All (λ l. not (is_fence l)) body inside,
      )
      (refl, refl)
