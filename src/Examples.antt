-- ===== src/Examples.antt =====
-- The theorems at concrete inputs of the dashboard (dashboard/src), and runs of its functions.
pub mod Samples
pub mod Lists
pub mod Store
pub mod Texts
pub mod Http
pub mod Api
pub mod Documents
pub mod Screens
pub mod Forms
pub mod Pages
pub mod Changes
