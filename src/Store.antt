-- ===== src/Store.antt =====
-- internal/store: what the database answers and what it means to the consumer.
pub mod Classify
pub mod Session
pub mod Catalogue
pub mod Partition
pub mod Insert
pub mod Retention
mod Tests
