-- ===== src/I18n.antt =====
-- dashboard/src/i18n: the language, the translations and the translated formatters. The browser's
-- language, the stored one and the date format of a locale come from the environment.
pub mod Entries
pub mod English
pub mod Chinese
pub mod Bundles
pub mod Labels
pub mod Interpolation
pub mod Languages
use proxy_pool_architect.Base.{
  ℕ, Bool, true, false, ◌&&◌, ◌||◌, Option, none, some, List, [], ◌∷◌, ◌++◌, if◌then◌else◌, nat_beq,
  leb, or_else,
}
use proxy_pool_architect.Base.Text.{Text, codes, text_beq, truthy, non_empty, starts_with, to_lower}
use proxy_pool_architect.I18n.Entries.{lookup}
use proxy_pool_architect.I18n.English.{en_texts}
use proxy_pool_architect.I18n.Chinese.{zh_texts}
use proxy_pool_architect.Format.{decimal, format_number, latency_or, percent_or, credential_or}
use proxy_pool_architect.Types.Records.{Ratio}

pub data Language : Type 0 where
  en zh_cn : Language

abbrev pub language_text : Language → Text
language_text en = codes "en"
language_text zh_cn = codes "zh-CN"

unfoldable pub resources : Language → List (Text × Text)
unfolding en_texts zh_texts
resources en = en_texts
resources zh_cn = zh_texts

unfoldable pub language_labels : Language → Text
language_labels en = codes "language.en"
language_labels zh_cn = codes "language.zh-CN"

unfoldable pub locale_by_language : Language → Text
locale_by_language en = codes "en-US"
locale_by_language zh_cn = codes "zh-CN"

-- `isLanguage(value)`, with the language that the value is.
abbrev pub is_language : Option Text → Option Language
is_language none = none
is_language (some value) =
    if text_beq value (codes "en")
    then some en
    else if text_beq value (codes "zh-CN")
    then some zh_cn
    else none

-- `persisted` is the stored value and `navigator` the browser's language.
unfoldable pub get_initial_language : Option Text → Text → Language
get_initial_language persisted navigator = elim (is_language persisted) [
  | some language ↦ language
  | none ↦ if starts_with (codes "zh") (to_lower navigator) then zh_cn else en
]

pub data TranslationValue : Type 0 where
  text : Text → TranslationValue
  number : ℕ → TranslationValue

-- `String(value)`
abbrev pub value_text : TranslationValue → Text
value_text (text s) = s
value_text (number n) = decimal n

-- The characters of a placeholder's name.
abbrev pub is_word : ℕ → Bool
is_word c =
    (leb b'a' c && leb c b'z')
    || ((leb b'A' c && leb c b'Z') || ((leb b'0' c && leb c b'9') || nat_beq c b'_'))

abbrev placeholder : Text → Text
placeholder name = b'{' ∷ name ++ b'}' ∷ []

-- What takes the place of a placeholder: the value, or the placeholder if there is none. A name that
-- every object has as a property, such as toString, stands in no text of the bundles.
abbrev pub fill : List (Text × TranslationValue) → Text → Text
fill values name = elim (lookup name values) [
  | none ↦ placeholder name
  | some value ↦ value_text value
]

-- The replacement of `/\{([a-zA-Z0-9_]+)\}/g`, reading from the left. `some name` says that a brace
-- and the word characters of `name` have been read; they are given out as they stand where no
-- placeholder comes of them.
pub replace_from : List (Text × TranslationValue) → Option Text → Text → Text
replace_from values none [] = []
replace_from values (some name) [] = b'{' ∷ name
replace_from values none (c ∷ s) =
    let opened = replace_from values (some []) s in
    let rest = replace_from values none s in if nat_beq c b'{' then opened else c ∷ rest
replace_from values (some name) (c ∷ s) =
    let longer = replace_from values (some (name ++ c ∷ [])) s in
    let opened = replace_from values (some []) s in
    let rest = replace_from values none s in
    if is_word c
    then longer
    else if nat_beq c b'}' && truthy name
    then fill values name ++ rest
    else if nat_beq c b'{'
    then b'{' ∷ name ++ opened
    else b'{' ∷ name ++ c ∷ rest

-- `none` stands for a call without values.
unfoldable pub interpolate : Text → Option (List (Text × TranslationValue)) → Text
unfolding replace_from
interpolate template none = template
interpolate template (some values) = replace_from values none template

-- The keys of the program are all in the bundles, so the missing text of no key is left out.
unfoldable pub translate : Language → Text → Option (List (Text × TranslationValue)) → Text
unfolding interpolate resources
translate language key values = interpolate (or_else (lookup key (resources language)) []) values

module _ (language : Language) where
  abbrev t : Text → Text
  t key = translate language key none

  -- `parses` says that `new Date(value)` is a valid date, and `date_format` formats it in a locale.
  unfoldable pub format_date_time : (Text → Bool) → (Text → Text → Text) → Option Text → Text
  unfolding translate
  format_date_time parses date_format value = elim (non_empty value) [
    | none ↦ t (codes "common.unknown")
    | some v ↦
        if parses v then date_format (locale_by_language language) v else t (codes "common.unknown")
  ]

  unfoldable pub format_latency : Option ℕ → Text
  unfolding translate latency_or
  format_latency = latency_or (t (codes "common.unknown"))

  unfoldable pub format_percent : Option Ratio → Text
  unfolding translate percent_or
  format_percent = percent_or (t (codes "common.unknown"))

  unfoldable pub mask_credential : Option Text → Text
  unfolding translate credential_or
  mask_credential = credential_or (t (codes "common.notSet"))
