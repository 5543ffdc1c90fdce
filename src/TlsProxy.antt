-- ===== src/TlsProxy.antt =====
-- The TLS proxy: tls-proxy/.
pub mod Serial
pub mod Crl
pub mod DeviceStore
pub mod Enroll
pub mod CertCache
pub mod Intercept
pub mod Examples
