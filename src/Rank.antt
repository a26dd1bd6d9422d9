-- ===== src/Rank.antt =====
-- The rank service: its leaderboard in Redis (services/rank_service/internal/repository/
-- leaderboard_repository.go) and the batcher of its updates, a module for each part.
pub mod Event
pub mod Script
pub mod Filter
pub mod Apply
pub mod Batcher
