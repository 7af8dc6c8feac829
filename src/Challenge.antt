-- ===== src/Challenge.antt =====
-- internal/challenge: ids, proof of work, and the verification that ends in a pass token.
pub mod Issuer
pub mod Pow
pub mod Service
pub mod Beacons
