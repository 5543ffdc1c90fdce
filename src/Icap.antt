-- ===== src/Icap.antt =====
-- The inspection of prompts: icap-server/.
pub mod Policy
pub mod Rules
pub mod Services
pub mod Filename
pub mod Detect
pub mod Identity
pub mod Hostname
pub mod Chunks
pub mod Server
pub mod Json
pub mod Mask
pub mod Extract
pub mod Handler
pub mod Notification
pub mod Chats
pub mod Examples
