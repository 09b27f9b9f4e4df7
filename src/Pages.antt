-- ===== src/Pages.antt =====
-- dashboard/src/pages: the state of the pages and what they compute from what they load.
pub mod Overview
pub mod Logs
pub mod Proxies
pub mod Providers
pub mod Validation
pub mod Geo
pub mod Settings
pub mod Login
pub mod Latency
pub mod Markdown
pub mod Doc
