-- ===== src/I18n/Chinese.antt =====
-- dashboard/src/i18n/translations.ts: the Chinese texts.
pub mod Shell
pub mod Proxies
pub mod Providers
pub mod Operations
use proxy_pool_architect.Base.{List, ◌++◌}
use proxy_pool_architect.Base.Text.{Text}
use proxy_pool_architect.I18n.Chinese.Shell.{zh_shell}
use proxy_pool_architect.I18n.Chinese.Proxies.{zh_proxies}
use proxy_pool_architect.I18n.Chinese.Providers.{zh_providers}
use proxy_pool_architect.I18n.Chinese.Operations.{zh_operations}

unfoldable pub zh_texts : List (Text × Text)
unfolding zh_shell zh_proxies zh_providers zh_operations
zh_texts = zh_shell ++ (zh_proxies ++ (zh_providers ++ zh_operations))
