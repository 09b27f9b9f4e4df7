-- ===== src/Preferences/Stored.antt =====
-- dashboard/src/i18n/I18nContext.tsx and dashboard/src/App.tsx: what the storage holds.
use proxy_pool_architect.Base.{
  Bool, true, false, ◌≡◌, refl, ◌∙◌, some, [], ◌∷◌, arith, if◌then◌else◌,
}
use proxy_pool_architect.Base.Text.{Text, text_beq, text_beq_iff}
use proxy_pool_architect.I18n.{Language, en, zh_cn, language_text, get_initial_language}
use proxy_pool_architect.App.{ThemeMode, dark, light, theme_text, get_initial_theme, toggle_theme}
use proxy_pool_architect.Preferences.{
  Storage, get_item, set_item, storage_key, theme_key, Preferences, store_language, store_theme,
  initial_preferences, opened, same_language, set_language, press_theme,
}

pub data Step (s s' : Preferences) : Type 0 where
  language_set : (language : Language) → s' ≡ set_language language s → Step s s'
  theme_pressed : s' ≡ press_theme s → Step s s'

-- The states that the dashboard reaches from its opening.
pub data Reach : Preferences → Type 0 where
  start : (navigator : Text) (storage : Storage) → Reach (opened navigator storage)
  step : {s s' : Preferences} → Reach s → Step s s' → Reach s'

get_item-set_item :
    (key other value : Text) (items : Storage)
    → get_item other (set_item key value items)
      ≡ (if text_beq key other then some value else get_item other items)
unfolding get_item set_item
get_item-set_item key other value [] = refl
get_item-set_item key other value ((k, v) ∷ items) = ground (
  arith,
  text_beq_iff k key,
  text_beq_iff key other,
  text_beq_iff k other,
  get_item-set_item key other value items,
)

-- The storage and the document hold the values.
abbrev HoldsLanguage : Preferences → Type 0
HoldsLanguage s =
    (get_item storage_key s.storage ≡ some (language_text s.language))
    × (s.document_language ≡ language_text s.language)

abbrev HoldsTheme : Preferences → Type 0
HoldsTheme s =
    (get_item theme_key s.storage ≡ some (theme_text s.theme))
    × (s.document_theme ≡ theme_text s.theme)

store_language-Holds : (s : Preferences) → HoldsLanguage (store_language s)
unfolding store_language
store_language-Holds s =
    (get_item-set_item storage_key storage_key (language_text s.language) s.storage, refl)

store_language-HoldsTheme : (s : Preferences) → HoldsTheme s → HoldsTheme (store_language s)
unfolding store_language
store_language-HoldsTheme s h =
    (get_item-set_item storage_key theme_key (language_text s.language) s.storage ∙ h.0, h.1)

store_theme-Holds : (s : Preferences) → HoldsTheme (store_theme s)
unfolding store_theme
store_theme-Holds s = (get_item-set_item theme_key theme_key (theme_text s.theme) s.storage, refl)

store_theme-HoldsLanguage : (s : Preferences) → HoldsLanguage s → HoldsLanguage (store_theme s)
unfolding store_theme
store_theme-HoldsLanguage s h =
    (get_item-set_item theme_key storage_key (theme_text s.theme) s.storage ∙ h.0, h.1)

Holds-set_language :
    (language : Language) (s : Preferences)
    → HoldsLanguage s × HoldsTheme s
    → HoldsLanguage (set_language language s) × HoldsTheme (set_language language s)
unfolding set_language
Holds-set_language language s h = of_test (same_language language s.language)
  where
    next : Preferences
    next = store_language (record s { language = language })

    of_test :
        (b : Bool) → HoldsLanguage (if b then s else next) × HoldsTheme (if b then s else next)
    of_test true = h
    of_test false = (
      store_language-Holds (record s { language = language }),
      store_language-HoldsTheme (record s { language = language }) h.1,
    )

Holds-press_theme :
    (s : Preferences)
    → HoldsLanguage s × HoldsTheme s
    → HoldsLanguage (press_theme s) × HoldsTheme (press_theme s)
unfolding press_theme
Holds-press_theme s h =
    let pressed = record s { theme = toggle_theme s.theme } in
    (store_theme-HoldsLanguage pressed h.0, store_theme-Holds pressed)

Reach-Holds : {s : Preferences} → Reach s → HoldsLanguage s × HoldsTheme s
Reach-Holds (start navigator storage) =
    let started = initial_preferences navigator storage in
    unfold opened in
    (
      store_theme-HoldsLanguage (store_language started) (store_language-Holds started),
      store_theme-Holds (store_language started),
    )
Reach-Holds (step {s} r (language_set language e)) =
    rw e (Holds-set_language language s (Reach-Holds r))
Reach-Holds (step {s} r (theme_pressed e)) = rw e (Holds-press_theme s (Reach-Holds r))

initial-language_text :
    (language : Language) (navigator : Text)
    → get_initial_language (some (language_text language)) navigator ≡ language
unfolding get_initial_language
initial-language_text en navigator = refl
initial-language_text zh_cn navigator = refl

initial-theme_text : (theme : ThemeMode) → get_initial_theme (some (theme_text theme)) ≡ theme
unfolding get_initial_theme
initial-theme_text dark = refl
initial-theme_text light = refl

-- Whenever the dashboard is opened again with the storage that it has left, in a browser of any
-- language, it has the language and the theme that it had; and the document always carries both.
pub Reach-opened :
    {s : Preferences}
    → Reach s
    → (navigator : Text)
    → ((opened navigator s.storage).language ≡ s.language)
      × ((opened navigator s.storage).theme ≡ s.theme)
      × (s.document_language ≡ language_text s.language)
      × (s.document_theme ≡ theme_text s.theme)
unfolding opened store_language store_theme initial_preferences
Reach-opened {s} r navigator =
    let (language, theme) = Reach-Holds r in
    (
      rw language.0 (initial-language_text s.language navigator),
      rw theme.0 (initial-theme_text s.theme),
      language.1,
      theme.1,
    )
