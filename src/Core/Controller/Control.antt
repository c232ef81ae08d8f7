-- ===== src/Core/Controller/Control.antt =====
-- The control state rules of src/core/controller.cpp: who may do what in which control mode.
use semiconductor_metrology.Base.{
  is_empty, Text, ℕ, String, Bool, true, false, not, ◌&&◌, ◌||◌, if◌then◌else◌, ◌≡◌, arith,
  has_value, Fails, Fails,
}
use semiconductor_metrology.Core.Process.{idle, stop, abort, fault, default_guards, apply}
use semiconductor_metrology.Core.Process.Reason
use semiconductor_metrology.Core.Alarms.{AlarmId}
use semiconductor_metrology.Core.Controller.{
  Controller, Command, CommandPayload, start_command, stop_command, abort_command,
  set_control_mode_command, CommandSource, secs_gem, ControlMode, is_remote, is_host, is_offline,
  same_state, handle_command, notify_fault, control_allows_start, control_allows_host_command,
  control_allows_set_mode,
}
use semiconductor_metrology.Core.Controller.Invariant.{Inv}

abbrev pub is_machine_command : CommandPayload → Bool
is_machine_command (set_control_mode_command mode) = false
is_machine_command _ = true

-- A host command that runs the machine is refused outside Online-Remote, whatever the state, and
-- nothing changes: no state, no event, no call of the scan driver.
pub host_needs_remote :
    (c : Controller) (command : Command)
    → command.source ≡ secs_gem
    → is_machine_command command.payload ≡ true
    → is_remote c.control_mode ≡ false
    → (has_value (handle_command command c).1 ≡ false) × ((handle_command command c).0 ≡ c)
unfolding handle_command apply control_allows_start control_allows_host_command
host_needs_remote c command s m r = ground arith

abbrev pub command_of : CommandPayload → CommandSource → ℕ → Command
command_of p source k = record { payload = p; source = source; correlation_id = k }

-- Stop and Abort from an operator (panel or command line) are decided by the state machine alone,
-- in every control mode.
pub operator_stop-abort :
    (c : Controller) (source : CommandSource) (correlation_id : ℕ)
    → is_host source ≡ false
    → ((handle_command (command_of stop_command source correlation_id) c).1
        ≡ (apply c.fsm stop default_guards).1)
      × ((handle_command (command_of abort_command source correlation_id) c).1
          ≡ (apply c.fsm abort default_guards).1)
unfolding handle_command apply control_allows_host_command
operator_stop-abort c source k s = (ground arith, ground arith)

-- In a state that the controller can be in, Start is accepted exactly in Idle, from the host in
-- Online-Remote and from an operator in the other modes, and for a wafer with a name.
pub start_accepted :
    (c : Controller) (wafer_id : Text) (slot correlation_id : ℕ) (source : CommandSource)
    → Inv c
    → has_value
        (handle_command (command_of (start_command wafer_id slot) source correlation_id) c).1
      ≡ (same_state c.state idle
          && (if is_remote c.control_mode then is_host source else not (is_host source))
          && not (is_empty wafer_id))
unfolding handle_command apply control_allows_start
start_accepted c wafer_id slot k source v = ground arith

-- In a state that the controller can be in, no Start is refused with the reason ActiveAlarm: the
-- flag is only up in Alarm, where Start is an illegal transition already.
pub start_never_active_alarm :
    (c : Controller) (wafer_id : Text) (slot correlation_id : ℕ) (source : CommandSource)
    → Inv c
    → ¬ Fails
        (handle_command (command_of (start_command wafer_id slot) source correlation_id) c).1
        Reason.active_alarm
unfolding handle_command apply control_allows_start
start_never_active_alarm c wafer_id slot k source v h = ground arith

-- The host may take the machine offline, or set any mode while it is offline, and nothing else: it
-- never switches between the online modes. Whether it may or not, the process state is untouched.
pub host_set_mode :
    (c : Controller) (mode : ControlMode) (correlation_id : ℕ)
    → let r =
        handle_command (command_of (set_control_mode_command mode) secs_gem correlation_id) c in
      let allowed = is_offline mode || is_offline c.control_mode in
      (r.0.control_mode ≡ (if allowed then mode else c.control_mode))
      × (has_value r.1 ≡ allowed)
      × (r.0.fsm ≡ c.fsm)
unfolding handle_command control_allows_set_mode
host_set_mode c mode k = (ground arith, ground arith, ground arith)

-- A fault that the state machine refuses records no alarm and publishes nothing: the alarm is
-- raised only where the transition to Alarm is made.
pub refused_fault_is_silent :
    (c : Controller) (id : AlarmId) (reason : String)
    → has_value (apply c.fsm fault default_guards).1 ≡ false
    → (notify_fault id reason c).0 ≡ c
unfolding notify_fault apply
refused_fault_is_silent c id reason h = ground arith
