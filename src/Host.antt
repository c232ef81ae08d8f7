-- ===== src/Host.antt =====
-- The host simulator (src/host_sim): its readable notation of SECS-II items.
pub mod Pattern
