-- ===== src/Token.antt =====
-- internal/token: pass tokens, which are signed and bound to what the request looked like.
pub mod Binding
pub mod Issuer
pub mod Verifier
pub mod Cookie
pub mod RoundTrip
