-- ===== src/Pages/Markdown/Fuel.antt =====
-- dashboard/src/components/doc/MarkdownRenderer.tsx: the fuel of the replacements of `inline`.
use mathlib.Core.Option
use proxy_pool_architect.Base.{
  ℕ, zero, suc, ◌≤◌, ◌<◌, Bool, true, false, ◌≡◌, refl, ap, Option, none, some, [], ◌∷◌, ◌++◌,
  arith, length, length-append, drop, inl, inr, Option-cases, nat_beq, if◌then◌else◌,
}
use proxy_pool_architect.Base.Text.{Text, codes, starts_with}
use proxy_pool_architect.Pages.Markdown.Inline.{
  Matcher, replace_each, replace_matches, some_before, some_lazily, wrapped, code_at, bold_at,
  italic_at, link, target_at, target_after, link_at,
}
use proxy_pool_architect.Pages.Markdown.Spans.{
  Splits, replace_each-none, replace_each-some, some_before-Splits, some_lazily-Splits,
}

-- What follows a match is shorter than the text.
abbrev Shrinks : ℕ → Option (Text × Text) → Type 0
Shrinks n none = Unit
Shrinks n (some (by, rest)) = length rest < n

abbrev IsShrinking : Matcher → Type 0
IsShrinking match = (s : Text) → Shrinks (length s) (match s)

replace_each-fuel :
    (match : Matcher)
    → IsShrinking match
    → (n m : ℕ) (s : Text) → length s ≤ n
    → length s ≤ m
    → replace_each n match s ≡ replace_each m match s
replace_each-fuel match shrinks zero zero s h k = refl
replace_each-fuel match shrinks zero (suc m) [] h k = unfold replace_each in refl
replace_each-fuel match shrinks (suc n) zero [] h k = unfold replace_each in refl
replace_each-fuel match shrinks (suc n) (suc m) [] h k = unfold replace_each in refl
replace_each-fuel match shrinks zero m (c ∷ s) h k = absurd (omega arith)
replace_each-fuel match shrinks (suc n) zero (c ∷ s) h k = absurd (omega arith)
replace_each-fuel match shrinks (suc n) (suc m) (c ∷ s) h k = elim (Option-cases (match (c ∷ s))) [
  | inl plain ↦
      rw (replace_each-none match n c s plain, replace_each-none match m c s plain)
        (ap (◌∷◌ c) (replace_each-fuel match shrinks n m s (omega arith) (omega arith)))
  | inr ((by, rest), found) ↦
      let less : length rest < length (c ∷ s) = rw found at (shrinks (c ∷ s)) in
      rw (replace_each-some match n c s by rest found, replace_each-some match m c s by rest found)
        (ap (λ t. by ++ t) (replace_each-fuel match shrinks n m rest (omega arith) (omega arith)))
]

found-Shrinks :
    (mark : ℕ) (more s : Text) (found : Option (Text × Text))
    → Splits (mark ∷ more) s found
    → Shrinks (length s) found
found-Shrinks mark more s none h = tt
found-Shrinks mark more s (some (body, rest)) h =
    omega (arith, ap length h, length-append body (mark ∷ (more ++ rest)), length-append more rest)

Shrinks-le : (n m : ℕ) (found : Option (Text × Text)) → n ≤ m → Shrinks n found → Shrinks m found
Shrinks-le n m none h k = tt
Shrinks-le n m (some (by, rest)) h k = omega arith

wrapped-Shrinks :
    (open_tag close_tag : Text) (n : ℕ) (found : Option (Text × Text))
    → Shrinks n found
    → Shrinks n (wrapped open_tag close_tag found)
wrapped-Shrinks open_tag close_tag n none h = tt
wrapped-Shrinks open_tag close_tag n (some (body, rest)) h = h

if-Shrinks :
    (b : Bool) (n : ℕ) (found : Option (Text × Text))
    → Shrinks n found
    → Shrinks n (if b then found else none)
if-Shrinks true n found h = h
if-Shrinks false n found h = tt

length-drop-le : (n : ℕ) (s : Text) → length (drop n s) ≤ length s
length-drop-le zero s = omega arith
length-drop-le (suc n) [] = omega arith
length-drop-le (suc n) (c ∷ s) = omega (arith, length-drop-le n s)

some_before-Shrinks : (stop n : ℕ) (s : Text) → length s ≤ n → Shrinks n (some_before stop s)
some_before-Shrinks stop n s h =
    Shrinks-le (length s) n (some_before stop s) h
      (found-Shrinks stop [] s (some_before stop s) (some_before-Splits stop s))

starred-Shrinks :
    (open_tag close_tag more : Text) (k : ℕ) (s : Text)
    → Shrinks (length s) (wrapped open_tag close_tag (some_lazily (b'*' ∷ more) (drop k s)))
starred-Shrinks open_tag close_tag more k s =
    wrapped-Shrinks open_tag close_tag (length s) (some_lazily (b'*' ∷ more) (drop k s)) (
      Shrinks-le (length (drop k s)) (length s) (some_lazily (b'*' ∷ more) (drop k s))
        (length-drop-le k s)
        (found-Shrinks b'*' more (drop k s) (some_lazily (b'*' ∷ more) (drop k s))
          (some_lazily-Splits (b'*' ∷ more) (drop k s))))

code_at-IsShrinking : IsShrinking code_at
unfolding code_at
code_at-IsShrinking [] = tt
code_at-IsShrinking (c ∷ s) = if-Shrinks (nat_beq c b'`') (suc (length s)) _ (
    wrapped-Shrinks (codes "<code class=\"inline-code\">") (codes "</code>") (suc (length s))
      (some_before b'`' s) (some_before-Shrinks b'`' (suc (length s)) s (omega arith)))

bold_at-IsShrinking : IsShrinking bold_at
unfolding bold_at
bold_at-IsShrinking s =
    if-Shrinks (starts_with (codes "**") s) (length s) _
      (starred-Shrinks (codes "<strong>") (codes "</strong>") (codes "*") 2 s)

italic_at-IsShrinking : IsShrinking italic_at
unfolding italic_at
italic_at-IsShrinking s =
    if-Shrinks (starts_with (codes "*") s) (length s) _
      (starred-Shrinks (codes "<em>") (codes "</em>") [] 1 s)

linked-Shrinks :
    (label : Text) (n : ℕ) (found : Option (Text × Text))
    → Shrinks n found
    → Shrinks n (Option.map (λ (target, rest). (link label target, rest)) found)
linked-Shrinks label n none h = tt
linked-Shrinks label n (some (target, rest)) h = h

target_at-Shrinks : (label : Text) (n : ℕ) (s : Text) → length s ≤ n → Shrinks n (target_at label s)
unfolding target_at
target_at-Shrinks label n [] h = tt
target_at-Shrinks label n (c ∷ s) h =
    if-Shrinks (nat_beq c b'(') n _
      (linked-Shrinks label n (some_before b')' s) (some_before-Shrinks b')' n s (omega arith)))

target_after-Shrinks :
    (n : ℕ) (found : Option (Text × Text)) → Shrinks n found → Shrinks n (target_after found)
unfolding target_after
target_after-Shrinks n none h = tt
target_after-Shrinks n (some (label, rest)) h = target_at-Shrinks label n rest (omega arith)

link_at-IsShrinking : IsShrinking link_at
unfolding link_at
link_at-IsShrinking [] = tt
link_at-IsShrinking (c ∷ s) = if-Shrinks (nat_beq c b'[') (suc (length s)) _ (
    target_after-Shrinks (suc (length s)) (some_before b']' s)
      (some_before-Shrinks b']' (suc (length s)) s (omega arith)))

-- The fuel that `inline` gives to each of its four replacements is enough: with any more, the
-- replacement gives the same.
pub replace_matches_enough :
    (text : Text) (fuel : ℕ)
    → length text ≤ fuel
    → (replace_each fuel code_at text ≡ replace_matches code_at text)
      × (replace_each fuel bold_at text ≡ replace_matches bold_at text)
      × (replace_each fuel italic_at text ≡ replace_matches italic_at text)
      × (replace_each fuel link_at text ≡ replace_matches link_at text)
replace_matches_enough text fuel h = (
  replace_each-fuel code_at code_at-IsShrinking fuel (length text) text h (omega arith),
  replace_each-fuel bold_at bold_at-IsShrinking fuel (length text) text h (omega arith),
  replace_each-fuel italic_at italic_at-IsShrinking fuel (length text) text h (omega arith),
  replace_each-fuel link_at link_at-IsShrinking fuel (length text) text h (omega arith),
)
