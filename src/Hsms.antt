-- ===== src/Hsms.antt =====
-- The HSMS layer (include/ssim/secsgem/hsms, src/secsgem/hsms).
pub mod Frame
pub mod FrameDecoder
pub mod Connection
pub mod Timer
pub mod DataMessage
pub mod Session
