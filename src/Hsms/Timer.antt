-- ===== src/Hsms/Timer.antt =====
-- Timers as deadlines (include/ssim/secsgem/hsms/timers.hpp). Points in time and durations are
-- numbers of milliseconds.
use semiconductor_metrology.Base.{ℕ, ◌+◌, Bool, false, Option, none, some, leb}

-- The deadline of a timer that runs.
abbrev pub Timer : Type 0
Timer = Option ℕ

abbrev pub start : ℕ → ℕ → Timer
start now duration = some (now + duration)

abbrev pub stop : Timer
stop = none

unfoldable pub expired : ℕ → Timer → Bool
expired now none = false
expired now (some deadline) = leb deadline now
