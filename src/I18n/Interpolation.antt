-- ===== src/I18n/Interpolation.antt =====
-- dashboard/src/i18n/I18nContext.tsx: what `interpolate` puts in and what it leaves.
use proxy_pool_architect.Base.{
  true, false, Option, none, some, List, [], ◌∷◌, ◌++◌, ◌≡◌, refl, ap, ◌∙◌, sym, nat_beq, arith,
  All, append_assoc, append-nil,
}
use proxy_pool_architect.Base.Text.{Text, truthy}
use proxy_pool_architect.I18n.{TranslationValue, is_word, fill, replace_from, interpolate}

-- What has been read of the template and not given out.
abbrev held : Option Text → Text
held none = []
held (some name) = b'{' ∷ name

replace_from-nil :
    (pending : Option Text) (s : Text) → replace_from [] pending s ≡ held pending ++ s
unfolding replace_from
replace_from-nil none [] = refl
replace_from-nil (some name) [] = ap (◌∷◌ b'{') (sym (append-nil name))
replace_from-nil none (c ∷ s) =
    ground (arith, replace_from-nil (some []) s, replace_from-nil none s)
replace_from-nil (some name) (c ∷ s) = ground (
  arith,
  replace_from-nil (some (name ++ c ∷ [])) s,
  replace_from-nil (some []) s,
  replace_from-nil none s,
  append_assoc name (c ∷ []) s,
)

replace_from_plain :
    (values : List (Text × TranslationValue)) (s rest : Text)
    → All (λ c. nat_beq c b'{' ≡ false) s
    → replace_from values none (s ++ rest) ≡ s ++ replace_from values none rest
unfolding replace_from
replace_from_plain values [] rest h = refl
replace_from_plain values (c ∷ s) rest h =
    rw h.0 (ap (◌∷◌ c) (replace_from_plain values s rest h.1))

replace_from_word :
    (values : List (Text × TranslationValue)) (name word rest : Text)
    → All (λ c. is_word c ≡ true) word
    → replace_from values (some name) (word ++ rest)
      ≡ replace_from values (some (name ++ word)) rest
unfolding replace_from
replace_from_word values name [] rest h = rw (append-nil name)
replace_from_word values name (c ∷ word) rest h = rw h.0 (
    rw (← append_assoc name (c ∷ []) word)
      (replace_from_word values (name ++ c ∷ []) word rest h.1))

replace_from_close :
    (values : List (Text × TranslationValue)) (name rest : Text)
    → truthy name ≡ true
    → replace_from values (some name) (b'}' ∷ rest)
      ≡ fill values name ++ replace_from values none rest
unfolding replace_from
replace_from_close values name rest h = rw h refl

-- A template keeps all text outside its placeholders, and a placeholder whose name consists of word
-- characters gives way to the text of its value.
pub interpolate_placeholder :
    (values : List (Text × TranslationValue)) (before name rest : Text)
    → All (λ c. nat_beq c b'{' ≡ false) before
    → All (λ c. is_word c ≡ true) name
    → truthy name ≡ true
    → interpolate (before ++ (b'{' ∷ name ++ b'}' ∷ rest)) (some values)
      ≡ before ++ (fill values name ++ interpolate rest (some values))
unfolding interpolate
interpolate_placeholder values before name rest plain word some_name =
    replace_from_plain values before _ plain
    ∙ ap (λ s. before ++ s)
        (replace_from_word values [] name (b'}' ∷ rest) word
          ∙ replace_from_close values name rest some_name)

-- A template without values, or with none that it names, stays as it is.
pub interpolate-nil : (s : Text) → (interpolate s (some []) ≡ s) × (interpolate s none ≡ s)
unfolding interpolate
interpolate-nil s = (replace_from-nil none s, refl)
