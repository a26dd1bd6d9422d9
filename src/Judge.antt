-- ===== src/Judge.antt =====
-- The judge service (services/judge_service/internal/sandbox), a module for each part.
pub mod Verdict
pub mod Request
pub mod Scoring
pub mod Worker
