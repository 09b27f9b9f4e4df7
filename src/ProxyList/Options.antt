-- ===== src/ProxyList/Options.antt =====
-- dashboard/src/lib/proxy-list.ts: the filter options.
use proxy_pool_architect.Base.{
  AllPairs, ℕ, Bool, false, ◌≡◌, refl, ap, ◌∙◌, none, some, List, [], ◌∷◌, ◌||◌, map, any, arith,
  sum_by, if◌then◌else◌, ◌==◌, All-intro,
}
use proxy_pool_architect.Base.Text.{
  Text, text_beq, text_beq_iff, text_eq, text_ltb, text_ltb_asymm, text_ltb_trans, has, non_empty,
}
use proxy_pool_architect.Base.Sort.{sort, IsPreorder, sort-AllPairs, sort-sum_by}
use proxy_pool_architect.Types.Records.{ProxyEndpoint}
use proxy_pool_architect.ProxyList.{
  unique_from, unique, present, text_after, collect_proxy_filter_options,
}

abbrev pub one_if : Bool → ℕ
one_if b = if b then 1 else 0

-- How often a text is listed.
abbrev pub occurrences : Text → List Text → ℕ
occurrences x = sum_by (λ y. one_if (text_beq y x))

pub occurrences-unique_from :
    (x : Text) (seen xs : List Text)
    → occurrences x (unique_from seen xs) ≡ (if has x seen then 0 else one_if (has x xs))
unfolding unique_from
occurrences-unique_from x seen [] = ground arith
occurrences-unique_from x seen (y ∷ xs) = ground (
  arith,
  text_beq_iff y x,
  occurrences-unique_from x seen xs,
  occurrences-unique_from x (y ∷ seen) xs,
)

occurrences-unique : (x : Text) (xs : List Text) → occurrences x (unique xs) ≡ one_if (has x xs)
unfolding unique
occurrences-unique x xs = occurrences-unique_from x [] xs

text_after-IsPreorder : IsPreorder text_after (λ _. Unit {0})
text_after-IsPreorder = record {
  total = λ x y _ _ h. text_ltb_asymm y x h;
  trans = λ x y z _ _ _ h k. text_ltb_trans x y z h k;
}

sorted_texts : (xs : List Text) → AllPairs (λ a b. text_ltb b a ≡ false) (sort text_after xs)
sorted_texts xs =
    sort-AllPairs text_after (λ _. Unit) _ text_after-IsPreorder (λ a b _ _ h. h) xs
      (All-intro xs (λ _. tt))

has-sources :
    (x : Text) (items : List ProxyEndpoint)
    → has x (map (λ proxy. proxy.source) items) ≡ any (λ proxy. proxy.source == x) items
has-sources x [] = refl
has-sources x (item ∷ items) = ap (◌||◌ (item.source == x)) (has-sources x items)

-- The proxy lies in the (non-empty) country `x`.
abbrev pub lies_in : Text → ProxyEndpoint → Bool
lies_in x proxy = elim (non_empty proxy.country) [ none ↦ false | some c ↦ c == x ]

has-present :
    (x : Text) (items : List ProxyEndpoint)
    → has x (present (map (λ proxy. proxy.country) items)) ≡ any (lies_in x) items
has-present x [] = refl
has-present x (item ∷ items) = ground (arith, has-present x items)

-- Each source of a proxy is listed exactly once and no other text is; each country that is present
-- and not empty is listed exactly once and no other text is; and both lists ascend.
pub collect_proxy_filter_options_lem :
    (x : Text) (items : List ProxyEndpoint)
    → (occurrences x (collect_proxy_filter_options items).sources
        ≡ one_if (any (λ proxy. proxy.source == x) items))
      × (occurrences x (collect_proxy_filter_options items).countries
          ≡ one_if (any (lies_in x) items))
      × AllPairs (λ a b. text_ltb b a ≡ false) (collect_proxy_filter_options items).sources
      × AllPairs (λ a b. text_ltb b a ≡ false) (collect_proxy_filter_options items).countries
unfolding collect_proxy_filter_options
collect_proxy_filter_options_lem x items = (
  sort-sum_by text_after _ _ ∙ (occurrences-unique x _ ∙ ap one_if (has-sources x items)),
  sort-sum_by text_after _ _ ∙ (occurrences-unique x _ ∙ ap one_if (has-present x items)),
  sorted_texts _,
  sorted_texts _,
)
