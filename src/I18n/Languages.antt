-- ===== src/I18n/Languages.antt =====
-- dashboard/src/i18n/I18nContext.tsx: the language that the dashboard starts with.
use proxy_pool_architect.Base.{◌≡◌, refl, none, some, ◌≢◌, arith, if◌then◌else◌}
use proxy_pool_architect.Base.Text.{Text, codes, text_beq_iff, starts_with, to_lower}
use proxy_pool_architect.I18n.{Language, en, zh_cn, language_text, get_initial_language}

-- The language that the dashboard stores is the one that it starts with the next time, whatever the
-- browser's language is; with no stored value, or one that names no language, it is Chinese exactly
-- when the browser's language begins with "zh" in any case.
pub get_initial_language_lem :
    (language : Language) (navigator : Text) (other : Text)
    → other ≢ codes "en"
    → other ≢ codes "zh-CN"
    → (get_initial_language (some (language_text language)) navigator ≡ language)
      × (get_initial_language none navigator
          ≡ (if starts_with (codes "zh") (to_lower navigator) then zh_cn else en))
      × (get_initial_language (some other) navigator ≡ get_initial_language none navigator)
unfolding get_initial_language
get_initial_language_lem language navigator other not_en not_zh = (
  stored language,
  refl,
  ground (arith, text_beq_iff other (codes "en"), text_beq_iff other (codes "zh-CN")),
)
  where
    stored : (l : Language) → get_initial_language (some (language_text l)) navigator ≡ l
    stored en = refl
    stored zh_cn = refl
