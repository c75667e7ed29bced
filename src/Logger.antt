-- ===== src/Logger.antt =====
-- observability/logger.go: the children hold the format of a log entry, and the logger with its
-- asynchronous delivery.
pub mod Format
pub mod Delivery
pub mod Entries
