-- ===== src/Kq.antt =====
-- The weighted Kafka queue (internal/common/mq/weighted_kq/weighted_kq.go), a module for each part.
pub mod Weights
pub mod Alloc
pub mod Confs
pub mod Schedule
pub mod Dispatch
pub mod Policy
