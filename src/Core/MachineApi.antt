-- ===== src/Core/MachineApi.antt =====
-- The facade of the machine (include/ssim/core/machine_api.hpp, src/core/machine_api.cpp). A call
-- blocks until the controller thread has applied the command, so it is a step of the controller here.
-- A double is its bit pattern.
use semiconductor_metrology.Base.{ℕ, Bool, Option, none, some, Result, Text, ◌+◌, ◌%◌, ◌^◌}
use semiconductor_metrology.Core.Process.{ProcessState}
use semiconductor_metrology.Core.Controller.{
  Controller, CommandPayload, CommandSource, ControlMode, start_command, stop_command,
  abort_command, clear_alarm_command, set_control_mode_command, handle_command,
}

pub record WaferResultReady : Type 0 where
  pub wafer_id : Text
  pub slot : ℕ
  pub stress_mpa : ℕ
  pub stress_unc_mpa : ℕ
  pub curvature_per_m : ℕ
  pub fit_rms_um : ℕ
  pub out_of_spec : Bool

pub record MachineSnapshot : Type 0 where
  pub process_state : ProcessState
  pub control_mode : ControlMode
  pub alarm_active : Bool
  pub progress_percent : ℕ
  pub wafer_id : Text
  pub last_result : Option WaferResultReady

pub record Machine : Type 0 where
  pub controller : Controller
  pub next_correlation_id : ℕ
  pub progress_percent : ℕ
  pub last_result : Option WaferResultReady

abbrev pub new : Controller → Machine
new c = record { controller = c; next_correlation_id = 1; progress_percent = 0; last_result = none }

-- The handlers of ScanProgress, ScanStarted and WaferResultReady.
unfoldable pub on_scan_progress : ℕ → Machine → Machine
on_scan_progress percent m = record m { progress_percent = percent }

unfoldable pub on_scan_started : Machine → Machine
on_scan_started m = record m { progress_percent = 0 }

unfoldable pub on_result_ready : WaferResultReady → Machine → Machine
on_result_ready r m = record m { last_result = some r }

-- The correlation id is a std::uint64_t.
unfoldable pub submit : CommandPayload → CommandSource → Machine → Machine × Result ProcessState
submit payload source m =
    let (c, result) =
      handle_command
        (record { payload = payload; source = source; correlation_id = m.next_correlation_id })
        m.controller in
    (
      record m { controller = c; next_correlation_id = (m.next_correlation_id + 1) % 2 ^ 64 },
      result,
    )

abbrev pub start : Text → ℕ → CommandSource → Machine → Machine × Result ProcessState
start wafer_id slot = submit (start_command wafer_id slot)

abbrev pub stop : CommandSource → Machine → Machine × Result ProcessState
stop = submit stop_command

abbrev pub abort : CommandSource → Machine → Machine × Result ProcessState
abort = submit abort_command

abbrev pub clear_alarm : CommandSource → Machine → Machine × Result ProcessState
clear_alarm = submit clear_alarm_command

abbrev pub set_control_mode : ControlMode → CommandSource → Machine → Machine × Result ProcessState
set_control_mode mode = submit (set_control_mode_command mode)

abbrev pub snapshot : Machine → MachineSnapshot
snapshot m = record {
  process_state = m.controller.state;
  control_mode = m.controller.control_mode;
  alarm_active = m.controller.has_active_alarm;
  progress_percent = m.progress_percent;
  wafer_id = m.controller.current_wafer_id;
  last_result = m.last_result;
}
