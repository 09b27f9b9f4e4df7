-- ===== src/I18n/Entries.antt =====
-- dashboard/src/i18n/translations.ts: a bundle of translations is the list of its entries.
use Prim.Native.String.{String}
use proxy_pool_architect.Base.{Option, none, some, List, [], ◌∷◌, if◌then◌else◌}
use proxy_pool_architect.Base.Text.{Text, codes, text_beq}

abbrev pub entry : String → String → Text × Text
entry key text = (codes key, codes text)

-- `bundle[key]`
abbrev pub lookup {ℓ} : {V : Type ℓ} → Text → List (Text × V) → Option V
lookup key [] = none
lookup key ((k, v) ∷ bundle) = if text_beq k key then some v else lookup key bundle
