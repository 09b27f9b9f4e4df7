-- ===== src/Pages/Markdown/Tags.antt =====
-- dashboard/src/components/doc/MarkdownRenderer.tsx: the tags that the renderer writes itself.
use proxy_pool_architect.Base.{
  ℕ, Bool, true, false, not, ◌≡◌, refl, ◌&&◌, ◌||◌, List, [], ◌∷◌, ◌++◌, All, arith, any, nat_beq,
}
use proxy_pool_architect.Base.Text.{Text, codes, starts_with}
use proxy_pool_architect.Pages.Markdown.{escape_html}
use proxy_pool_architect.Pages.Markdown.Escaping.{IsInert, escape_html_lem}

-- What stands behind the bracket that opens a tag.
abbrev pub tag_names : List Text
tag_names =
    codes "code class=\"inline-code\">"
    ∷ codes "/code>"
    ∷ codes "strong>"
    ∷ codes "/strong>"
    ∷ codes "em>"
    ∷ codes "/em>"
    ∷ codes "a href=\""
    ∷ codes "/a>"
    ∷ codes "pre class=\"code-block\">"
    ∷ codes "code class=\"lang-"
    ∷ codes "/pre>"
    ∷ codes "hr />"
    ∷ codes "div class=\"table-wrap\">"
    ∷ codes "table>"
    ∷ codes "/table>"
    ∷ codes "/div>"
    ∷ codes "thead>"
    ∷ codes "/thead>"
    ∷ codes "tbody>"
    ∷ codes "/tbody>"
    ∷ codes "tr>"
    ∷ codes "/tr>"
    ∷ codes "th>"
    ∷ codes "/th>"
    ∷ codes "td>"
    ∷ codes "/td>"
    ∷ codes "h1>"
    ∷ codes "/h1>"
    ∷ codes "h2>"
    ∷ codes "/h2>"
    ∷ codes "h3>"
    ∷ codes "/h3>"
    ∷ codes "h4>"
    ∷ codes "/h4>"
    ∷ codes "h5>"
    ∷ codes "/h5>"
    ∷ codes "h6>"
    ∷ codes "/h6>"
    ∷ codes "blockquote>"
    ∷ codes "/blockquote>"
    ∷ codes "ul>"
    ∷ codes "/ul>"
    ∷ codes "li>"
    ∷ codes "/li>"
    ∷ codes "p>"
    ∷ codes "/p>"
    ∷ []

-- One of the texts begins this one.
abbrev pub begins : List Text → Text → Bool
begins names s = any (λ name. starts_with name s) names

unfoldable pub opens_tag : Text → Bool
opens_tag s = begins tag_names s

-- Every opening bracket of a text begins one of the renderer's tags.
unfoldable pub only_tags : Text → Bool
only_tags [] = true
only_tags (c ∷ s) = (not (nat_beq c b'<') || opens_tag s) && only_tags s

-- The characters at which the renderer's regular expressions begin or end a match.
abbrev pub is_mark : ℕ → Bool
is_mark c =
    nat_beq c b'`'
    || (nat_beq c b'*'
        || (nat_beq c b'[' || (nat_beq c b']' || (nat_beq c b'(' || nat_beq c b')'))))

abbrev pub IsPlain : Text → Type 0
IsPlain s = All (λ c. is_mark c ≡ false) s

starts_with-append :
    (name s t : Text) → starts_with name s ≡ true → starts_with name (s ++ t) ≡ true
starts_with-append [] s t h = refl
starts_with-append (d ∷ name) [] t h = cc
starts_with-append (d ∷ name) (c ∷ s) t h = ground (arith, starts_with-append name s t)

starts_with-cut :
    (name s t : Text) (c : ℕ)
    → IsPlain name
    → is_mark c ≡ true
    → starts_with name (s ++ c ∷ t) ≡ true
    → starts_with name s ≡ true
starts_with-cut [] s t c plain mark h = refl
starts_with-cut (d ∷ name) [] t c plain mark h = let same : c ≡ d = ground arith in ground arith
starts_with-cut (d ∷ name) (e ∷ s) t c plain mark h =
    ground (arith, starts_with-cut name s t c plain.1 mark)

-- A test that is kept for each of the names is kept for all.
pub begins_mono :
    (names : List Text) (s s' : Text)
    → All IsPlain names
    → ((name : Text) → IsPlain name → starts_with name s ≡ true → starts_with name s' ≡ true)
    → begins names s ≡ true
    → begins names s' ≡ true
begins_mono [] s s' plain keeps h = h
begins_mono (name ∷ names) s s' plain keeps h =
    ground (arith, keeps name plain.0, begins_mono names s s' plain.1 keeps)

all_plain : List Text → Bool
all_plain [] = true
all_plain (name ∷ names) = not (any is_mark name) && all_plain names

IsPlain-any : (s : Text) → any is_mark s ≡ false → IsPlain s
IsPlain-any [] h = tt
IsPlain-any (c ∷ s) h = ground (arith, IsPlain-any s)

all_plain-All : (names : List Text) → all_plain names ≡ true → All IsPlain names
unfolding all_plain
all_plain-All [] h = tt
all_plain-All (name ∷ names) h = ground (arith, IsPlain-any name, all_plain-All names)

pub tag_names-IsPlain : All IsPlain tag_names
unfolding all_plain
tag_names-IsPlain = all_plain-All tag_names refl

opens_tag-append : (s t : Text) → opens_tag s ≡ true → opens_tag (s ++ t) ≡ true
unfolding opens_tag
opens_tag-append s t =
    begins_mono tag_names s (s ++ t) tag_names-IsPlain
      (λ name plain h. starts_with-append name s t h)

opens_tag-cut :
    (s t : Text) (c : ℕ) → is_mark c ≡ true → opens_tag (s ++ c ∷ t) ≡ true → opens_tag s ≡ true
unfolding opens_tag
opens_tag-cut s t c mark =
    begins_mono tag_names (s ++ c ∷ t) s tag_names-IsPlain
      (λ name plain h. starts_with-cut name s t c plain mark h)

pub only_tags-append :
    (s t : Text) → only_tags s ≡ true → only_tags t ≡ true → only_tags (s ++ t) ≡ true
unfolding only_tags
only_tags-append [] t h k = k
only_tags-append (c ∷ s) t h k = ground (arith, opens_tag-append s t, only_tags-append s t)

pub only_tags-between :
    (s t u : Text)
    → only_tags s ≡ true
    → only_tags t ≡ true
    → only_tags u ≡ true
    → only_tags (s ++ (t ++ u)) ≡ true
only_tags-between s t u h k l = only_tags-append s (t ++ u) h (only_tags-append t u k l)

-- A part that ends before a mark.
pub only_tags-cut :
    (s t : Text) (c : ℕ)
    → is_mark c ≡ true
    → only_tags (s ++ c ∷ t) ≡ true
    → (only_tags s ≡ true) × (only_tags t ≡ true)
unfolding only_tags
only_tags-cut [] t c mark h = (refl, ground arith)
only_tags-cut (d ∷ s) t c mark h = ground (arith, opens_tag-cut s t c, only_tags-cut s t c)

pub only_tags-after : (s t : Text) → only_tags (s ++ t) ≡ true → only_tags t ≡ true
unfolding only_tags
only_tags-after [] t h = h
only_tags-after (c ∷ s) t h = ground (arith, only_tags-after s t)

IsInert-only_tags : (s : Text) → All IsInert s → only_tags s ≡ true
unfolding only_tags
IsInert-only_tags [] h = refl
IsInert-only_tags (c ∷ s) h = ground (arith, IsInert-only_tags s)

pub escape_html-only_tags : (text : Text) → only_tags (escape_html text) ≡ true
escape_html-only_tags text = IsInert-only_tags (escape_html text) (escape_html_lem text).0
