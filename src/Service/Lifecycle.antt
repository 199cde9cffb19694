-- ===== src/Service/Lifecycle.antt =====
-- A short URL from its creation on, on the tables.
pub mod Shortened
pub mod Returning
pub mod Concurrent
