-- ===== src/Webui.antt =====
-- The dashboard: webui/.
pub mod CrlStore
pub mod DeviceStore
pub mod EnrollTokens
pub mod Users
pub mod Sessions
pub mod RateLimit
pub mod Login
pub mod Rules
pub mod PolicyPage
pub mod Devices
pub mod Settings
pub mod Examples
