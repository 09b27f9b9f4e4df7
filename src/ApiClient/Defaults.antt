-- ===== src/ApiClient/Defaults.antt =====
-- dashboard/src/lib/api-client.ts: the mode and the time limit that the client takes from the build's
-- environment. `number` reads a text as `Number` does, and gives `none` for what is not finite or below
-- zero.
use proxy_pool_architect.Base.{ℕ, Option, none, some, ltb, if◌then◌else◌}
use proxy_pool_architect.Base.Text.{Text, codes, text_beq}
use proxy_pool_architect.ApiClient.Client.{DashboardDataMode, mock, live}

unfoldable pub get_default_mode : (data_mode : Option Text) → DashboardDataMode
get_default_mode none = mock
get_default_mode (some data_mode) = if text_beq data_mode (codes "live") then live else mock

abbrev positive_or : ℕ → Option ℕ → ℕ
positive_or fallback none = fallback
positive_or fallback (some raw) = if ltb 0 raw then raw else fallback

unfoldable pub get_default_timeout_ms :
    (number : Text → Option ℕ) → (request_timeout_ms : Option Text) → ℕ
get_default_timeout_ms number none = 4000
get_default_timeout_ms number (some text) = positive_or 4000 (number text)
