-- ===== src/ApiClient.antt =====
-- dashboard/src/lib/api-client.ts: the API client.
pub mod Agreement
pub mod Http
pub mod Live
pub mod Normalize
pub mod Requests
pub mod Call
pub mod Loading
pub mod Client
pub mod Errors
pub mod Cache
pub mod Overlap
pub mod Operations
pub mod Keeping
pub mod Stable
pub mod Modes
pub mod Fallbacks
pub mod Defaults
pub mod Params
