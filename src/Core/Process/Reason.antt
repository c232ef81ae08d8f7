-- ===== src/Core/Process/Reason.antt =====
-- The reason codes of include/ssim/core/process_state_machine.hpp.
use semiconductor_metrology.Base.{ℕ}

abbrev pub illegal_transition : ℕ
illegal_transition = 100

abbrev pub control_state_denied : ℕ
control_state_denied = 101

abbrev pub active_alarm : ℕ
active_alarm = 102

abbrev pub invalid_wafer : ℕ
invalid_wafer = 103

abbrev pub alarm_not_cleared : ℕ
alarm_not_cleared = 104
