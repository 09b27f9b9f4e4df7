-- ===== src/Pages/Markdown/Safety.antt =====
-- dashboard/src/components/doc/MarkdownRenderer.tsx: the tags in what `inline` gives.
use proxy_pool_architect.Base.{
  ℕ, zero, suc, true, false, ◌≡◌, refl, Option, none, some, [], ◌∷◌, ◌++◌, arith, drop, nat_beq,
}
use mathlib.Core.Option
use proxy_pool_architect.Base.Text.{Text, codes, starts_with}
use proxy_pool_architect.Pages.Markdown.Inline.{
  some_before, some_lazily, code_at, bold_at, italic_at, link, target_at, target_after, link_at,
  inline,
}
use proxy_pool_architect.Pages.Markdown.Tags.{
  opens_tag, only_tags, is_mark, only_tags-between, escape_html-only_tags,
}
use proxy_pool_architect.Pages.Markdown.Spans.{
  OnlyTags, Parts, IsTidy, replace_each-OnlyTags, some_before-Splits, some_lazily-Splits,
  found-Parts, wrapped-Parts, if-Parts,
}

some_before-Parts :
    (stop : ℕ) (s : Text) → is_mark stop ≡ true → OnlyTags s → Parts (some_before stop s)
some_before-Parts stop s is =
    found-Parts stop [] s (some_before stop s) is (some_before-Splits stop s)

some_lazily-Parts :
    (mark : ℕ) (more s : Text)
    → is_mark mark ≡ true
    → OnlyTags s
    → Parts (some_lazily (mark ∷ more) s)
some_lazily-Parts mark more s is =
    found-Parts mark more s (some_lazily (mark ∷ more) s) is (some_lazily-Splits (mark ∷ more) s)

tail-OnlyTags : (c : ℕ) (s : Text) → OnlyTags (c ∷ s) → OnlyTags s
unfolding only_tags
tail-OnlyTags c s h = ground arith

drop-OnlyTags : (n : ℕ) (s : Text) → OnlyTags s → OnlyTags (drop n s)
unfolding only_tags
drop-OnlyTags zero s h = h
drop-OnlyTags (suc n) [] h = refl
drop-OnlyTags (suc n) (c ∷ s) h = drop-OnlyTags n s (tail-OnlyTags c s h)

pub code_at-IsTidy : IsTidy code_at
unfolding code_at only_tags opens_tag
code_at-IsTidy = record { at_mark = λ c s h. ground arith; parts = parts }
  where
    parts : (s : Text) → OnlyTags s → Parts (code_at s)
    parts [] h = tt
    parts (c ∷ s) h = if-Parts (nat_beq c b'`') _ (λ same.
        wrapped-Parts (codes "<code class=\"inline-code\">") (codes "</code>") (some_before b'`' s)
          refl refl (some_before-Parts b'`' s refl (tail-OnlyTags c s h)))

not_star : (c : ℕ) (more s : Text) → is_mark c ≡ false → starts_with (b'*' ∷ more) (c ∷ s) ≡ false
not_star c more s h = ground arith

pub bold_at-IsTidy : IsTidy bold_at
unfolding bold_at only_tags opens_tag
bold_at-IsTidy = record {
  at_mark = λ c s h. rw (not_star c (codes "*") s h) refl;
  parts = λ s h. if-Parts (starts_with (codes "**") s) _ (λ starts.
      wrapped-Parts (codes "<strong>") (codes "</strong>") (some_lazily (codes "**") (drop 2 s))
        refl refl (some_lazily-Parts b'*' (codes "*") (drop 2 s) refl (drop-OnlyTags 2 s h)));
}

pub italic_at-IsTidy : IsTidy italic_at
unfolding italic_at only_tags opens_tag
italic_at-IsTidy = record {
  at_mark = λ c s h. rw (not_star c [] s h) refl;
  parts = λ s h. if-Parts (starts_with (codes "*") s) _ (λ starts.
      wrapped-Parts (codes "<em>") (codes "</em>") (some_lazily (codes "*") (drop 1 s)) refl refl
        (some_lazily-Parts b'*' [] (drop 1 s) refl (drop-OnlyTags 1 s h)));
}

link-OnlyTags :
    (label target : Text) → OnlyTags label → OnlyTags target → OnlyTags (link label target)
unfolding only_tags opens_tag
link-OnlyTags label target h k =
    only_tags-between (codes "<a href=\"") target
      (codes "\" target=\"_blank\" rel=\"noopener\">" ++ (label ++ codes "</a>")) refl k
      (only_tags-between (codes "\" target=\"_blank\" rel=\"noopener\">") label (codes "</a>") refl
        h refl)

linked-Parts :
    (label : Text) (found : Option (Text × Text))
    → OnlyTags label
    → Parts found
    → Parts (Option.map (λ (target, rest). (link label target, rest)) found)
linked-Parts label none h parts = tt
linked-Parts label (some (target, rest)) h parts = (link-OnlyTags label target h parts.0, parts.1)

target_at-Parts : (label s : Text) → OnlyTags label → OnlyTags s → Parts (target_at label s)
unfolding target_at
target_at-Parts label [] h k = tt
target_at-Parts label (c ∷ s) h k = if-Parts (nat_beq c b'(') _ (λ same.
    linked-Parts label (some_before b')' s) h (some_before-Parts b')' s refl (tail-OnlyTags c s k)))

target_after-Parts : (found : Option (Text × Text)) → Parts found → Parts (target_after found)
unfolding target_after
target_after-Parts none h = tt
target_after-Parts (some (label, rest)) h = target_at-Parts label rest h.0 h.1

pub link_at-IsTidy : IsTidy link_at
unfolding link_at
link_at-IsTidy = record { at_mark = λ c s h. ground arith; parts = parts }
  where
    parts : (s : Text) → OnlyTags s → Parts (link_at s)
    parts [] h = tt
    parts (c ∷ s) h = if-Parts (nat_beq c b'[') _ (λ same.
        target_after-Parts (some_before b']' s)
          (some_before-Parts b']' s refl (tail-OnlyTags c s h)))

-- What `inline` gives for a text has only tags of the renderer, whatever the text is.
pub inline-OnlyTags : (text : Text) → OnlyTags (inline text)
unfolding inline
inline-OnlyTags text = replace_each-OnlyTags link_at link_at-IsTidy _ _ (
    replace_each-OnlyTags italic_at italic_at-IsTidy _ _ (
      replace_each-OnlyTags bold_at bold_at-IsTidy _ _
        (replace_each-OnlyTags code_at code_at-IsTidy _ _ (escape_html-only_tags text))))
