-- ===== src/Fingerprint.antt =====
-- internal/signal/fingerprint: how a browser's fingerprint report scores.
pub mod Report
pub mod Agents
pub mod Navigator
pub mod Probes
pub mod Page
pub mod Scorer
pub mod Catalogue
pub mod Total
pub mod Refused
