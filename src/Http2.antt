-- ===== src/Http2.antt =====
-- internal/signal/http2: the frames that an HTTP/2 client sends first.
pub mod Hpack
pub mod Frames
pub mod Akamai
pub mod Ja4h
pub mod Collector
