-- ===== src/Gem.antt =====
-- The GEM layer (include/ssim/secsgem/gem, src/secsgem/gem).
pub mod Identifiers
pub mod Messages
pub mod Service
