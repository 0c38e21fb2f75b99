-- ===== src/Retry.antt =====
-- internal/retry: the delay chain (chain.go), the marks of a record (marks.go) and the sink that
-- moves a record along the chain (forwarder.go).
pub mod Chain
pub mod Marks
pub mod Forwarder
mod Tests
