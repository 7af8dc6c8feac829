-- ===== src/Tests.antt =====
-- Runs on concrete inputs, and each theorem at an input that meets its hypotheses.
mod Data
mod Decisions
mod Policies
mod Caches
mod Pipelines
mod Tls
mod Challenges
mod Passes
mod Beacons
mod Http2
mod Daemons
mod Apis
mod Servers
mod Proxies
mod Fingerprints
mod HeaderChecks
