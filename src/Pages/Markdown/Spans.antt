-- ===== src/Pages/Markdown/Spans.antt =====
-- dashboard/src/components/doc/MarkdownRenderer.tsx: the tags in what a replacement of all matches gives.
use mathlib.Core.Option
use proxy_pool_architect.Base.{
  ℕ, zero, suc, Bool, true, false, ◌≡◌, refl, ap, Option, none, some, [], ◌∷◌, ◌++◌, arith, length,
  drop, inl, inr, Option-cases, nat_beq, if◌then◌else◌,
}
use proxy_pool_architect.Base.Text.{Text, starts_with}
use proxy_pool_architect.Pages.Markdown.Inline.{
  Matcher, replace_each, before, some_before, is_terminator, lazily, some_lazily, wrapped,
}
use proxy_pool_architect.Pages.Markdown.Tags.{
  tag_names, opens_tag, only_tags, is_mark, IsPlain, tag_names-IsPlain, begins_mono,
  only_tags-append, only_tags-cut, only_tags-after,
}

abbrev pub OnlyTags : Text → Type 0
OnlyTags s = only_tags s ≡ true

-- Both parts of a match hold only tags of the renderer.
abbrev pub Parts : Option (Text × Text) → Type 0
Parts none = Unit
Parts (some (part, rest)) = OnlyTags part × OnlyTags rest

-- A match begins at a mark, and what replaces it and what follows it hold only tags of the renderer.
pub record IsTidy (match : Matcher) : Type 0 where
  pub at_mark : (c : ℕ) (s : Text) → is_mark c ≡ false → match (c ∷ s) ≡ none
  pub parts : (s : Text) → OnlyTags s → Parts (match s)

pub replace_each-none :
    (match : Matcher) (n c : ℕ) (s : Text)
    → match (c ∷ s) ≡ none
    → replace_each (suc n) match (c ∷ s) ≡ c ∷ replace_each n match s
unfolding replace_each
replace_each-none match n c s e = rw (e, replace_each) refl

pub replace_each-some :
    (match : Matcher) (n c : ℕ) (s by rest : Text)
    → match (c ∷ s) ≡ some (by, rest)
    → replace_each (suc n) match (c ∷ s) ≡ by ++ replace_each n match rest
unfolding replace_each
replace_each-some match n c s by rest e = rw (e, replace_each) refl

replace_each-starts_with :
    (match : Matcher)
    → IsTidy match
    → (n : ℕ) (name s : Text) → IsPlain name
    → starts_with name s ≡ true
    → starts_with name (replace_each n match s) ≡ true
replace_each-starts_with match tidy n [] s plain h = refl
replace_each-starts_with match tidy n (d ∷ name) [] plain h = cc
replace_each-starts_with match tidy zero (d ∷ name) (c ∷ s) plain h = unfold replace_each in h
replace_each-starts_with match tidy (suc n) (d ∷ name) (c ∷ s) plain h =
    let same : d ≡ c = ground arith in
    rw (replace_each-none match n c s (tidy.at_mark c s (rw same at plain.0)))
      (ground (arith, replace_each-starts_with match tidy n name s plain.1))

replace_each-opens_tag :
    (match : Matcher)
    → IsTidy match
    → (n : ℕ) (s : Text) → opens_tag s ≡ true
    → opens_tag (replace_each n match s) ≡ true
unfolding opens_tag
replace_each-opens_tag match tidy n s =
    begins_mono tag_names s (replace_each n match s) tag_names-IsPlain
      (λ name. replace_each-starts_with match tidy n name s)

pub replace_each-OnlyTags :
    (match : Matcher)
    → IsTidy match
    → (n : ℕ) (s : Text) → OnlyTags s
    → OnlyTags (replace_each n match s)
unfolding only_tags
replace_each-OnlyTags match tidy zero s h = unfold replace_each in h
replace_each-OnlyTags match tidy (suc n) [] h = unfold replace_each in refl
replace_each-OnlyTags match tidy (suc n) (c ∷ s) h = elim (Option-cases (match (c ∷ s))) [
  | inl plain ↦
      rw (replace_each-none match n c s plain) (
        ground (arith, replace_each-opens_tag match tidy n s, replace_each-OnlyTags match tidy n s))
  | inr ((by, rest), found) ↦
      let both = rw found at (tidy.parts (c ∷ s) h) in
      rw (replace_each-some match n c s by rest found) (
        only_tags-append by (replace_each n match rest) both.0
          (replace_each-OnlyTags match tidy n rest both.1))
]

-- The text is what a search has found, the text that ends it, and the rest.
abbrev pub Splits : Text → Text → Option (Text × Text) → Type 0
Splits close s none = Unit
Splits close s (some (body, rest)) = s ≡ body ++ (close ++ rest)

cons-Splits :
    (close : Text) (c : ℕ) (s : Text) (found : Option (Text × Text))
    → Splits close s found
    → Splits close (c ∷ s) (Option.map (λ (body, rest). (c ∷ body, rest)) found)
cons-Splits close c s none h = tt
cons-Splits close c s (some (body, rest)) h = ap (◌∷◌ c) h

if-Splits :
    (b : Bool) (close s : Text) (found found' : Option (Text × Text))
    → (b ≡ true → Splits close s found)
    → (b ≡ false → Splits close s found')
    → Splits close s (if b then found else found')
if-Splits true close s found found' h k = h refl
if-Splits false close s found found' h k = k refl

before-Splits : (stop : ℕ) (s : Text) → Splits (stop ∷ []) s (before stop s)
unfolding before
before-Splits stop [] = tt
before-Splits stop (c ∷ s) =
    if-Splits (nat_beq c stop) (stop ∷ []) (c ∷ s) _ _ (λ same. ground arith)
      (λ other. cons-Splits (stop ∷ []) c s (before stop s) (before-Splits stop s))

pub some_before-Splits : (stop : ℕ) (s : Text) → Splits (stop ∷ []) s (some_before stop s)
unfolding some_before
some_before-Splits stop [] = tt
some_before-Splits stop (c ∷ s) =
    if-Splits (nat_beq c stop) (stop ∷ []) (c ∷ s) _ _ (λ same. tt)
      (λ other. cons-Splits (stop ∷ []) c s (before stop s) (before-Splits stop s))

starts_with-drop :
    (close s : Text) → starts_with close s ≡ true → s ≡ close ++ drop (length close) s
starts_with-drop [] s h = refl
starts_with-drop (d ∷ close) [] h = cc
starts_with-drop (d ∷ close) (c ∷ s) h = ground (arith, starts_with-drop close s)

lazily-Splits : (close s : Text) → Splits close s (lazily close s)
unfolding lazily
lazily-Splits close [] = tt
lazily-Splits close (c ∷ s) =
    if-Splits (starts_with close (c ∷ s)) close (c ∷ s) _ _ (starts_with-drop close (c ∷ s)) (λ on.
      if-Splits (is_terminator c) close (c ∷ s) _ _ (λ ends. tt)
        (λ goes. cons-Splits close c s (lazily close s) (lazily-Splits close s)))

pub some_lazily-Splits : (close s : Text) → Splits close s (some_lazily close s)
unfolding some_lazily
some_lazily-Splits close [] = tt
some_lazily-Splits close (c ∷ s) =
    if-Splits (is_terminator c) close (c ∷ s) _ _ (λ ends. tt)
      (λ goes. cons-Splits close c s (lazily close s) (lazily-Splits close s))

-- What is found before a mark holds only tags, and so does the rest.
pub found-Parts :
    (mark : ℕ) (more s : Text) (found : Option (Text × Text))
    → is_mark mark ≡ true
    → Splits (mark ∷ more) s found
    → OnlyTags s
    → Parts found
found-Parts mark more s none is splits h = tt
found-Parts mark more s (some (body, rest)) is splits h =
    let (whole, later) = only_tags-cut body (more ++ rest) mark is (rw splits at h) in
    (whole, only_tags-after more rest later)

pub wrapped-Parts :
    (open_tag close_tag : Text) (found : Option (Text × Text))
    → OnlyTags open_tag
    → OnlyTags close_tag
    → Parts found
    → Parts (wrapped open_tag close_tag found)
wrapped-Parts open_tag close_tag none opening closing h = tt
wrapped-Parts open_tag close_tag (some (body, rest)) opening closing h = (
  only_tags-append open_tag (body ++ close_tag) opening
      (only_tags-append body close_tag h.0 closing),
  h.1,
)

pub if-Parts :
    (b : Bool) (found : Option (Text × Text))
    → (b ≡ true → Parts found)
    → Parts (if b then found else none)
if-Parts true found h = h refl
if-Parts false found h = tt
