-- ===== src/Gateway.antt =====
-- The gateway (services/gateway_service/internal), a module for each part.
pub mod Lru
pub mod Bans
pub mod Access
