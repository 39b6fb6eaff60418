-- ===== src/CollectionJob.antt =====
-- internal/module/collectionjob: collection jobs over Kafka, with retries, dead letters, an outbox
-- and an execution log. The children model one file each.
pub mod Event
pub mod Env
pub mod Key
pub mod Backoff
pub mod Execution
pub mod Outbox
pub mod Dlq
pub mod Worker
mod Tests
