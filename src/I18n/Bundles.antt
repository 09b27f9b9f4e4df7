-- ===== src/I18n/Bundles.antt =====
-- dashboard/src/i18n/translations.ts: the two bundles side by side.
use proxy_pool_architect.Base.{
  Bool, true, false, ◌&&◌, Option, none, some, List, [], ◌∷◌, ◌++◌, ◌≡◌, refl, if◌then◌else◌,
  nat_beq, arith,
}
use proxy_pool_architect.Base.Text.{Text, text_beq, text_beq_iff, truthy, has}
use proxy_pool_architect.I18n.Entries.{lookup}
use proxy_pool_architect.I18n.English.Shell.{en_shell}
use proxy_pool_architect.I18n.English.Proxies.{en_proxies}
use proxy_pool_architect.I18n.English.Providers.{en_providers}
use proxy_pool_architect.I18n.English.Operations.{en_operations}
use proxy_pool_architect.I18n.English.{en_texts}
use proxy_pool_architect.I18n.Chinese.Shell.{zh_shell}
use proxy_pool_architect.I18n.Chinese.Proxies.{zh_proxies}
use proxy_pool_architect.I18n.Chinese.Providers.{zh_providers}
use proxy_pool_architect.I18n.Chinese.Operations.{zh_operations}
use proxy_pool_architect.I18n.Chinese.{zh_texts}
use proxy_pool_architect.I18n.{en, zh_cn, resources, is_word}

-- The names between braces in a template, in order.
abbrev pub placeholders_from : Option Text → Text → List Text
placeholders_from open_name [] = []
placeholders_from none (c ∷ s) = placeholders_from (if nat_beq c b'{' then some [] else none) s
placeholders_from (some name) (c ∷ s) =
    let found = name ∷ placeholders_from none s in
    let next =
      placeholders_from
        (if is_word c then some (name ++ c ∷ []) else if nat_beq c b'{' then some [] else none) s in
    if nat_beq c b'}' && truthy name then found else next

abbrev pub placeholders : Text → List Text
placeholders = placeholders_from none

abbrev all_in : List Text → List Text → Bool
all_in [] ys = true
all_in (x ∷ xs) ys = has x ys && all_in xs ys

-- Both texts are there and ask for the same values.
abbrev pub texts_fit : Text → Text → Bool
texts_fit s t =
    truthy s
    && truthy t
    && all_in (placeholders s) (placeholders t)
    && all_in (placeholders t) (placeholders s)

-- The bundles have the same keys in the same order, with texts that fit.
abbrev bundles_fit : List (Text × Text) → List (Text × Text) → Bool
bundles_fit [] [] = true
bundles_fit [] (z ∷ zs) = false
bundles_fit (e ∷ es) [] = false
bundles_fit (e ∷ es) (z ∷ zs) = text_beq e.0 z.0 && texts_fit e.1 z.1 && bundles_fit es zs

shell-fit : bundles_fit en_shell zh_shell ≡ true
unfolding en_shell zh_shell
shell-fit = refl

proxies-fit : bundles_fit en_proxies zh_proxies ≡ true
unfolding en_proxies zh_proxies
proxies-fit = refl

providers-fit : bundles_fit en_providers zh_providers ≡ true
unfolding en_providers zh_providers
providers-fit = refl

operations-fit : bundles_fit en_operations zh_operations ≡ true
unfolding en_operations zh_operations
operations-fit = refl

bundles_fit-append :
    (es zs es' zs' : List (Text × Text))
    → bundles_fit es zs ≡ true
    → bundles_fit es' zs' ≡ true
    → bundles_fit (es ++ es') (zs ++ zs') ≡ true
bundles_fit-append [] [] es' zs' h k = k
bundles_fit-append [] (z ∷ zs) es' zs' h k = cc
bundles_fit-append (e ∷ es) [] es' zs' h k = cc
bundles_fit-append (e ∷ es) (z ∷ zs) es' zs' h k = ground (arith, bundles_fit-append es zs es' zs')

texts-fit : bundles_fit en_texts zh_texts ≡ true
unfolding en_texts zh_texts
texts-fit =
    bundles_fit-append en_shell zh_shell (en_proxies ++ (en_providers ++ en_operations))
      (zh_proxies ++ (zh_providers ++ zh_operations)) shell-fit
      (bundles_fit-append en_proxies zh_proxies (en_providers ++ en_operations)
        (zh_providers ++ zh_operations) proxies-fit
        (bundles_fit-append en_providers zh_providers en_operations zh_operations providers-fit
          operations-fit))

-- What is said of a key: no bundle has it, or both do, with texts that fit.
abbrev pub Fits : Option Text → Option Text → Type 0
Fits none none = Unit
Fits none (some t) = ⊥
Fits (some s) none = ⊥
Fits (some s) (some t) = texts_fit s t ≡ true

lookup-Fits :
    (key : Text) (es zs : List (Text × Text))
    → bundles_fit es zs ≡ true
    → Fits (lookup key es) (lookup key zs)
lookup-Fits key [] [] h = tt
lookup-Fits key [] (z ∷ zs) h = cc
lookup-Fits key (e ∷ es) [] h = cc
lookup-Fits key (e ∷ es) (z ∷ zs) h =
    ground (arith, text_beq_iff e.0 z.0, text_beq_iff e.0 key, lookup-Fits key es zs)

-- Every key is in both bundles or in neither; where it is, both texts are non-empty and name the same
-- placeholders.
pub resources-Fits : (key : Text) → Fits (lookup key (resources en)) (lookup key (resources zh_cn))
unfolding resources
resources-Fits key = lookup-Fits key en_texts zh_texts texts-fit
