-- ===== src/Contest.antt =====
-- Contests (pkg/contest and services/contest_service/internal), a module for each part.
pub mod Score
pub mod Eligibility
pub mod Final
pub mod Outbox
