-- ===== src/Core/Alarms.antt =====
-- The alarm catalogue and the set of active alarms (include/ssim/core/alarms.hpp and
-- src/core/alarms.cpp). The hash map of active alarms is an association list; the order in which
-- `clear_all` announces them is that of the list, which the hash map leaves open. A call changes the
-- set under the mutex and publishes its notices after it has released it: the threads' order of
-- the two is in Core/Alarms/Announced.
pub mod Laws
pub mod Announced
use semiconductor_metrology.Base.{
  ℕ, String, Bool, true, false, not, List, [], ◌∷◌, ◌==◌, if◌then◌else◌, is_empty, length, ◌||◌,
}

pub data AlarmId : Type 0 where
  sensor_spike_rate_high sensor_dropout fit_quality_poor scan_stall processing_timeout
        queue_overflow stress_implausible :
      AlarmId

-- static_cast<int>(id)
unfoldable pub code : AlarmId → ℕ
code sensor_spike_rate_high = 1001
code sensor_dropout = 1002
code fit_quality_poor = 1003
code scan_stall = 1004
code processing_timeout = 1005
code queue_overflow = 1006
code stress_implausible = 1007

unfoldable pub to_string : AlarmId → String
to_string sensor_spike_rate_high = "SensorSpikeRateHigh"
to_string sensor_dropout = "SensorDropout"
to_string fit_quality_poor = "FitQualityPoor"
to_string scan_stall = "ScanStall"
to_string processing_timeout = "ProcessingTimeout"
to_string queue_overflow = "QueueOverflow"
to_string stress_implausible = "StressImplausible"

-- What the manager announces on the event bus.
pub data Notice : Type 0 where
  alarm_set : ℕ → String → String → Notice
  alarm_cleared : ℕ → String → Notice

-- alid -> reason
abbrev pub Active : Type 0
Active = List (AlarmId × String)

unfoldable pub is_active : AlarmId → Active → Bool
is_active id [] = false
is_active id ((j, r) ∷ rest) = code j == code id || is_active id rest

-- std::unordered_map::erase; a key stands in the map once.
unfoldable pub erase : AlarmId → Active → Active
erase id [] = []
erase id ((j, r) ∷ rest) = if code j == code id then rest else (j, r) ∷ erase id rest

-- Each operation returns the active set as it is when the mutex is released, and the notices that the
-- call then publishes, in order.
unfoldable pub set : AlarmId → String → Active → Active × List Notice
unfolding is_active
set id reason active =
    if is_active id active
    then (active, [])
    else ((id, reason) ∷ active, alarm_set (code id) (to_string id) reason ∷ [])

unfoldable pub clear : AlarmId → Active → Active × List Notice
unfolding is_active erase
clear id active =
    if is_active id active
    then (erase id active, alarm_cleared (code id) (to_string id) ∷ [])
    else (active, [])

unfoldable pub cleared_notices : Active → List Notice
cleared_notices [] = []
cleared_notices ((id, reason) ∷ rest) =
    alarm_cleared (code id) (to_string id) ∷ cleared_notices rest

unfoldable pub clear_all : Active → Active × List Notice
unfolding cleared_notices
clear_all active = ([], cleared_notices active)

unfoldable pub any_active : Active → Bool
any_active active = not (is_empty active)

unfoldable pub active_count : Active → ℕ
active_count active = length active
