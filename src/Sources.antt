-- ===== src/Sources.antt =====
-- internal/module/source: the sources of a user, their configuration and the cache of their lists.
pub mod Data
pub mod Config
pub mod Repository
pub mod Request
pub mod Service
pub mod Redaction
pub mod Answers
pub mod History
pub mod Jsonb
pub mod Revision
pub mod Kept
pub mod Reachable
pub mod Access
pub mod Stored
mod Tests
