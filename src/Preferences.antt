-- ===== src/Preferences.antt =====
-- What the dashboard keeps in the browser's storage: the language (`I18nProvider` of
-- dashboard/src/i18n/I18nContext.tsx) and the theme (`useThemeMode` of dashboard/src/App.tsx). An effect
-- runs when its value has changed, and once at the start.
pub mod Stored
use proxy_pool_architect.Base.{Bool, true, false, Option, none, some, List, [], ◌∷◌, if◌then◌else◌}
use proxy_pool_architect.Base.Text.{Text, codes, text_beq}
use proxy_pool_architect.I18n.{Language, en, zh_cn, language_text, get_initial_language}
use proxy_pool_architect.App.{ThemeMode, theme_text, get_initial_theme, toggle_theme}

-- `localStorage`
abbrev pub Storage : Type 0
Storage = List (Text × Text)

unfoldable pub get_item : Text → Storage → Option Text
get_item key [] = none
get_item key ((k, v) ∷ items) = if text_beq k key then some v else get_item key items

unfoldable pub set_item : Text → Text → Storage → Storage
set_item key value [] = (key, value) ∷ []
set_item key value ((k, v) ∷ items) =
    if text_beq k key then (k, value) ∷ items else (k, v) ∷ set_item key value items

abbrev pub storage_key : Text
storage_key = codes "dashboard-language"

abbrev pub theme_key : Text
theme_key = codes "dashboard-theme"

-- The document's `lang` and `data-theme` stand beside the two values.
pub record Preferences : Type 0 where
  pub language : Language
  pub theme : ThemeMode
  pub document_language : Text
  pub document_theme : Text
  pub storage : Storage

-- The two effects.
unfoldable pub store_language : Preferences → Preferences
unfolding set_item
store_language s =
    let value = language_text s.language in
    record s { storage = set_item storage_key value s.storage; document_language = value }

unfoldable pub store_theme : Preferences → Preferences
unfolding set_item
store_theme s =
    let value = theme_text s.theme in
    record s { storage = set_item theme_key value s.storage; document_theme = value }

-- The initial values of the two states, before the effects.
unfoldable pub initial_preferences : (navigator : Text) → Storage → Preferences
unfolding get_item get_initial_language get_initial_theme
initial_preferences navigator storage = record {
  language = get_initial_language (get_item storage_key storage) navigator;
  theme = get_initial_theme (get_item theme_key storage);
  document_language = [];
  document_theme = [];
  storage = storage;
}

-- The dashboard is opened in a browser with this language and storage.
unfoldable pub opened : (navigator : Text) → Storage → Preferences
unfolding store_language store_theme initial_preferences
opened navigator storage = store_theme (store_language (initial_preferences navigator storage))

abbrev pub same_language : Language → Language → Bool
same_language en en = true
same_language zh_cn zh_cn = true
same_language _ _ = false

unfoldable pub set_language : Language → Preferences → Preferences
unfolding store_language
set_language language s =
    if same_language language s.language
    then s
    else store_language (record s { language = language })

unfoldable pub press_theme : Preferences → Preferences
unfolding store_theme toggle_theme
press_theme s = store_theme (record s { theme = toggle_theme s.theme })
