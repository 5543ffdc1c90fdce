-- ===== src/Connect.antt =====
-- The agent on a user's device: connect/.
pub mod Forwarder
