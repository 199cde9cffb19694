-- ===== src/Platform.antt =====
-- internal/platform, apart from the database and the leader gate: what the start of the program
-- reads and sets up.
pub mod Words
pub mod Logger
pub mod Config
pub mod RedisClient
pub mod Tracing
pub mod Metrics
