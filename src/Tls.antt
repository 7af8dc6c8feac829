-- ===== src/Tls.antt =====
-- internal/signal/tls: ClientHello parsing and the JA3 and JA4 fingerprints.
pub mod Reader
pub mod Extensions
pub mod Parser
pub mod Ja3
pub mod Ja4
pub mod Families
pub mod Collector
