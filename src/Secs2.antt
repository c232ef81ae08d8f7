-- ===== src/Secs2.antt =====
-- The SECS-II layer (include/ssim/secsgem/secs2, src/secsgem/secs2).
pub mod BigEndian
pub mod Item
pub mod Codec
pub mod Message
pub mod MessageFactory
