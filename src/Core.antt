-- ===== src/Core.antt =====
-- The machine's core (include/ssim/core, src/core).
pub mod Process
pub mod Alarms
pub mod Controller
pub mod Queue
pub mod MachineApi
pub mod Ring
pub mod EventBus
