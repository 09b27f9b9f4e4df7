-- ===== src/Pages/Markdown/Escaping.antt =====
-- dashboard/src/components/doc/MarkdownRenderer.tsx: what a browser makes of escaped text.
use proxy_pool_architect.Base.{
  ℕ, false, ◌||◌, ◌≡◌, refl, ap, ◌∙◌, Option, none, some, [], ◌∷◌, ◌++◌, All, if◌then◌else◌,
  nat_beq, nat_beq_iff, Bool-cases, inl, inr,
}
use proxy_pool_architect.Base.Text.{Text, codes, text_beq}
use proxy_pool_architect.Pages.Markdown.{escape_html}

-- The character that a reference stands for; other names do not occur.
abbrev pub referred : Text → Text
referred name =
    if text_beq name (codes "amp")
    then codes "&"
    else if text_beq name (codes "lt")
    then codes "<"
    else if text_beq name (codes "gt")
    then codes ">"
    else if text_beq name (codes "quot")
    then codes "\""
    else []

-- How a browser reads the references in a text. `some name` says that an ampersand and `name` have
-- been read.
unfoldable pub decode : Option Text → Text → Text
decode none [] = []
decode (some name) [] = []
decode none (c ∷ s) =
    let opened = decode (some []) s in
    let rest = decode none s in if nat_beq c b'&' then opened else c ∷ rest
decode (some name) (c ∷ s) =
    let longer = decode (some (name ++ c ∷ [])) s in
    let rest = decode none s in if nat_beq c b';' then referred name ++ rest else longer

-- The text for one character.
abbrev pub escaped : ℕ → Text
escaped c =
    if nat_beq c b'&'
    then codes "&amp;"
    else if nat_beq c b'<'
    then codes "&lt;"
    else if nat_beq c b'>'
    then codes "&gt;"
    else if nat_beq c b'"'
    then codes "&quot;"
    else c ∷ []

pub escape_html-cons : (c : ℕ) (s : Text) → escape_html (c ∷ s) ≡ escaped c ++ escape_html s
unfolding escape_html
escape_html-cons c s = elim (Bool-cases (nat_beq c b'&')) [
  | inl amp ↦ rw amp refl
  | inr no_amp ↦ elim (Bool-cases (nat_beq c b'<')) [
    | inl lt ↦ rw (no_amp, lt) refl
    | inr no_lt ↦ elim (Bool-cases (nat_beq c b'>')) [
      | inl gt ↦ rw (no_amp, no_lt, gt) refl
      | inr no_gt ↦ elim (Bool-cases (nat_beq c b'"')) [
        | inl quote ↦ rw (no_amp, no_lt, no_gt, quote) refl
        | inr no_quote ↦ rw (no_amp, no_lt, no_gt, no_quote) refl
      ]
    ]
  ]
]

decode-escaped : (c : ℕ) (s : Text) → decode none (escaped c ++ s) ≡ c ∷ decode none s
unfolding decode
decode-escaped c s = elim (Bool-cases (nat_beq c b'&')) [
  | inl amp ↦ let same = (nat_beq_iff c b'&').0 amp in rw same refl
  | inr no_amp ↦ elim (Bool-cases (nat_beq c b'<')) [
    | inl lt ↦ let same = (nat_beq_iff c b'<').0 lt in rw same refl
    | inr no_lt ↦ elim (Bool-cases (nat_beq c b'>')) [
      | inl gt ↦ let same = (nat_beq_iff c b'>').0 gt in rw same refl
      | inr no_gt ↦ elim (Bool-cases (nat_beq c b'"')) [
        | inl quote ↦ let same = (nat_beq_iff c b'"').0 quote in rw same refl
        | inr no_quote ↦ rw (no_amp, no_lt, no_gt, no_quote) (rw no_amp refl)
      ]
    ]
  ]
]

-- No bracket of a tag and no quotation mark.
abbrev pub IsInert : ℕ → Type 0
IsInert c = (nat_beq c b'<' || (nat_beq c b'>' || nat_beq c b'"')) ≡ false

pub All-append : (P : ℕ → Type 0) (s t : Text) → All P s → All P t → All P (s ++ t)
All-append P [] t h k = k
All-append P (c ∷ s) t h k = (h.0, All-append P s t h.1 k)

escaped-IsInert : (c : ℕ) → All IsInert (escaped c)
escaped-IsInert c = elim (Bool-cases (nat_beq c b'&')) [
  | inl amp ↦ rw amp (refl, (refl, (refl, (refl, (refl, tt)))))
  | inr no_amp ↦ elim (Bool-cases (nat_beq c b'<')) [
    | inl lt ↦ rw (no_amp, lt) (refl, (refl, (refl, (refl, tt))))
    | inr no_lt ↦ elim (Bool-cases (nat_beq c b'>')) [
      | inl gt ↦ rw (no_amp, no_lt, gt) (refl, (refl, (refl, (refl, tt))))
      | inr no_gt ↦ elim (Bool-cases (nat_beq c b'"')) [
        | inl quote ↦
            rw (no_amp, no_lt, no_gt, quote) (refl, (refl, (refl, (refl, (refl, (refl, tt))))))
        | inr no_quote ↦ rw (no_amp, no_lt, no_gt, no_quote) (rw (no_lt, no_gt, no_quote) refl, tt)
      ]
    ]
  ]
]

-- Escaped text has no bracket of a tag and no quotation mark, and a browser that reads its character
-- references gets the text back.
pub escape_html_lem :
    (text : Text) → All IsInert (escape_html text) × (decode none (escape_html text) ≡ text)
unfolding decode escape_html
escape_html_lem [] = (tt, refl)
escape_html_lem (c ∷ s) =
    let (inert, back) = escape_html_lem s in
    rw (escape_html-cons c s) (
      All-append IsInert (escaped c) (escape_html s) (escaped-IsInert c) inert,
      decode-escaped c (escape_html s) ∙ ap (◌∷◌ c) back,
    )
