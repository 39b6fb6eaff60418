-- ===== src/Articles.antt =====
-- internal/module/article: the articles that were collected, and what a user has read and saved.
pub mod Data
pub mod Repository
pub mod Service
pub mod Saving
pub mod Batches
pub mod Once
pub mod Marks
mod Tests
