-- ===== src/Tests.antt =====
-- Runs of the program on concrete inputs, and the concrete instances of the interfaces that they use.
pub mod Fixtures
mod Traffic
mod Shortening
mod Storage
mod Serving
mod Breaking
mod Bypassing
mod Answering
mod Reordered
mod Replicas
mod Starting
mod Probing
mod Racing
mod Platforms
mod Configured
mod Copied
mod Ticking
mod Expiring
