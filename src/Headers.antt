-- ===== src/Headers.antt =====
-- internal/signal/headers: what a request's headers give away.
pub mod Order
pub mod SecFetch
pub mod ClientHints
pub mod Referer
pub mod Collector
pub mod Proxied
