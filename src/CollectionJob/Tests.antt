-- ===== src/CollectionJob/Tests.antt =====
-- The collection jobs on concrete data.
mod Data
mod Outbox
mod Execution
mod Worker
mod Dlq
