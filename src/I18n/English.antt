-- ===== src/I18n/English.antt =====
-- dashboard/src/i18n/translations.ts: the English texts.
pub mod Shell
pub mod Proxies
pub mod Providers
pub mod Operations
use proxy_pool_architect.Base.{List, ◌++◌}
use proxy_pool_architect.Base.Text.{Text}
use proxy_pool_architect.I18n.English.Shell.{en_shell}
use proxy_pool_architect.I18n.English.Proxies.{en_proxies}
use proxy_pool_architect.I18n.English.Providers.{en_providers}
use proxy_pool_architect.I18n.English.Operations.{en_operations}

unfoldable pub en_texts : List (Text × Text)
unfolding en_shell en_proxies en_providers en_operations
en_texts = en_shell ++ (en_proxies ++ (en_providers ++ en_operations))
