-- ===== src/Core/Controller.antt =====
-- The controller (include/ssim/core/controller.hpp, src/core/controller.cpp, command.hpp and
-- events.hpp). A request posted to the inbox runs to its end on the controller thread, so each is
-- one function on the state. Calls of the event bus and of the scan driver are entries of `trace`,
-- newest first. A double is its bit pattern, which the controller only passes on; so is the slot.
-- A wafer id is the list of its bytes.
pub mod Rules
pub mod Invariant
pub mod Control
use semiconductor_metrology.Base.{
  ℕ, String, Bool, true, false, not, ◌&&◌, ◌||◌, List, [], ◌∷◌, Option, none, some, Result, ok,
  fail, has_value, Text, is_empty, if◌then◌else◌,
}
use semiconductor_metrology.Core.Process.{
  ProcessState, ProcessTrigger, start, lines_complete, stop, abort, fault, result_ready,
  clear_alarm, stage_stopped, ProcessStateMachine, TransitionGuards, default_guards, apply, initial,
}
use semiconductor_metrology.Core.Process.Reason
use semiconductor_metrology.Core.Process
use semiconductor_metrology.Core.Alarms.{AlarmId, Active, Notice}
use semiconductor_metrology.Core.Alarms

pub data CommandSource : Type 0 where
  ui cli secs_gem : CommandSource

pub data ControlMode : Type 0 where
  offline online_local online_remote : ControlMode

pub data CommandPayload : Type 0 where
  start_command : Text → ℕ → CommandPayload
  stop_command abort_command clear_alarm_command : CommandPayload
  set_control_mode_command : ControlMode → CommandPayload

pub record Command : Type 0 where
  pub payload : CommandPayload
  pub source : CommandSource
  pub correlation_id : ℕ

-- The events that the controller and its alarm manager publish.
pub data Event : Type 0 where
  scan_started : Text → ℕ → Event
  scan_complete : Text → ℕ → Bool → Event
  wafer_out_of_spec : Text → ℕ → Event
  run_aborted : Text → Event
  alarm_notice : Notice → Event
  state_changed : ProcessState → ProcessState → Event
  control_state_changed : ControlMode → ControlMode → Event
  scan_lines_complete : Text → Event

pub data Effect : Type 0 where
  publish : Event → Effect
  driver_start : Text → Effect
  driver_request_abort : Effect

pub record Controller : Type 0 where
  pub fsm : ProcessStateMachine
  pub state : ProcessState
  pub control_mode : ControlMode
  pub has_active_alarm : Bool
  pub current_wafer_id : Text
  pub alarms : Active
  pub trace : List Effect

abbrev pub new : Controller
new = record {
  fsm = initial;
  state = Process.idle;
  control_mode = online_local;
  has_active_alarm = false;
  current_wafer_id = [];
  alarms = [];
  trace = [];
}

abbrev pub Outcome : Type 0
Outcome = Controller × Result ProcessState

abbrev pub is_host : CommandSource → Bool
is_host secs_gem = true
is_host ui = false
is_host cli = false

abbrev pub is_remote : ControlMode → Bool
is_remote online_remote = true
is_remote offline = false
is_remote online_local = false

abbrev pub is_offline : ControlMode → Bool
is_offline offline = true
is_offline online_local = false
is_offline online_remote = false

unfoldable pub control_allows_start : ControlMode → CommandSource → Bool
control_allows_start mode source = if is_remote mode then is_host source else not (is_host source)

unfoldable pub control_allows_host_command : ControlMode → CommandSource → Bool
control_allows_host_command mode source = not (is_host source) || is_remote mode

unfoldable pub control_allows_set_mode : ControlMode → ControlMode → CommandSource → Bool
control_allows_set_mode requested current source =
    if not (is_host source) then true else is_offline requested || is_offline current

abbrev pub log : Effect → Controller → Controller
log e c = record c { trace = e ∷ c.trace }

abbrev pub same_state : ProcessState → ProcessState → Bool
same_state Process.idle Process.idle = true
same_state Process.scanning Process.scanning = true
same_state Process.processing Process.processing = true
same_state Process.alarm Process.alarm = true
same_state Process.stopping Process.stopping = true
same_state _ _ = false

-- state_.store(...); bus_.publish(StateChanged{...});
announce : ProcessState → ProcessStateMachine → Controller → Controller
announce from m c = record c {
  fsm = m;
  state = m.state;
  trace = publish (state_changed from m.state) ∷ c.trace;
}

unfoldable pub transition : ProcessTrigger → TransitionGuards → Controller → Outcome
unfolding announce
transition t g c =
    let (m, result) = apply c.fsm t g in
    (
      if has_value result && not (same_state m.state c.fsm.state)
          then announce c.fsm.state m c
          else record c { fsm = m },
      result,
    )

-- What a handler does `if (result)`, the result being passed on.
abbrev pub on_success : (Controller → Controller) → Outcome → Outcome
on_success k (c, r) = (if has_value r then k c else c, r)

notices : List Notice → List Effect → List Effect
notices [] trace = trace
notices (n ∷ ns) trace = notices ns (publish (alarm_notice n) ∷ trace)

-- alarms_.set(id, reason) and alarms_.clear_all()
set_alarm : AlarmId → String → Controller → Controller
unfolding notices
set_alarm id reason c =
    let (active, said) = Alarms.set id reason c.alarms in
    record c { alarms = active; trace = notices said c.trace }

clear_all_alarms : Controller → Controller
unfolding notices
clear_all_alarms c =
    let (active, said) = Alarms.clear_all c.alarms in
    record c { alarms = active; trace = notices said c.trace }

denied : Controller → Outcome
denied c = (c, fail Reason.control_state_denied "host commands need Online-Remote")

begin_run : Text → ℕ → Controller → Controller
begin_run wafer_id slot c = record c {
  current_wafer_id = wafer_id;
  trace = driver_start wafer_id ∷ publish (scan_started wafer_id slot) ∷ c.trace;
}

handle_start : Text → ℕ → CommandSource → Controller → Outcome
unfolding begin_run
handle_start wafer_id slot source c =
    on_success (begin_run wafer_id slot) (transition start guards c)
  where
    guards : TransitionGuards
    guards = record default_guards {
      control_allows_start = control_allows_start c.control_mode source;
      has_active_alarm = c.has_active_alarm;
      wafer_valid = not (is_empty wafer_id);
    }

handle_stop : CommandSource → Controller → Outcome
unfolding denied
handle_stop source c =
    if control_allows_host_command c.control_mode source
    then transition stop default_guards c
    else denied c

handle_abort : CommandSource → Controller → Outcome
unfolding denied
handle_abort source c =
    if control_allows_host_command c.control_mode source
    then on_success (log driver_request_abort) (transition abort default_guards c)
    else denied c

cleared : Controller → Controller
unfolding clear_all_alarms
cleared c = clear_all_alarms (record c { has_active_alarm = false })

handle_clear_alarm : CommandSource → Controller → Outcome
unfolding denied cleared
handle_clear_alarm source c =
    if control_allows_host_command c.control_mode source
    then on_success cleared
        (transition clear_alarm (record default_guards { alarm_cause_cleared = true }) c)
    else denied c

handle_set_mode : ControlMode → CommandSource → Controller → Outcome
handle_set_mode mode source c =
    if control_allows_set_mode mode c.control_mode source
    then (
      record c {
        control_mode = mode;
        trace = publish (control_state_changed c.control_mode mode) ∷ c.trace;
      },
      ok c.state,
    )
    else (c, fail Reason.control_state_denied "SetControlMode denied for this source")

-- std::visit over the payload.
visit : CommandPayload → CommandSource → Controller → Outcome
visit (start_command wafer_id slot) source = handle_start wafer_id slot source
visit stop_command source = handle_stop source
visit abort_command source = handle_abort source
visit clear_alarm_command source = handle_clear_alarm source
visit (set_control_mode_command mode) source = handle_set_mode mode source

unfoldable pub handle_command : Command → Controller → Outcome
unfolding visit handle_start handle_stop handle_abort handle_clear_alarm handle_set_mode transition
handle_command command = visit command.payload command.source

unfoldable pub notify_scan_complete : Text → Controller → Outcome
unfolding transition
notify_scan_complete wafer_id c =
    transition lines_complete default_guards (log (publish (scan_lines_complete wafer_id)) c)

raise : AlarmId → String → Controller → Controller
unfolding set_alarm
raise id reason c = set_alarm id reason (record c { has_active_alarm = true })

unfoldable pub notify_fault : AlarmId → String → Controller → Outcome
unfolding transition raise
notify_fault id reason c = on_success (raise id reason) (transition fault default_guards c)

finish_wafer : Bool → ℕ → Bool → Controller → Outcome
finish_wafer out_of_spec stress_mpa more c =
    on_success (log (publish (scan_complete c.current_wafer_id 0 out_of_spec))) (
      transition result_ready (record default_guards { more_wafers_pending = more })
        (if out_of_spec
          then log (publish (wafer_out_of_spec c.current_wafer_id stress_mpa)) c
          else c))

-- The arguments are out_of_spec, stress_mpa, raised_alarm_id, alarm_reason, more_wafers_pending.
unfoldable pub notify_processing_result :
    Bool → ℕ → Option AlarmId → String → Bool → Controller → Outcome
unfolding notify_fault finish_wafer
notify_processing_result out_of_spec stress_mpa (some id) reason more c = notify_fault id reason c
notify_processing_result out_of_spec stress_mpa none reason more c =
    finish_wafer out_of_spec stress_mpa more c

unfoldable pub notify_stage_stopped : Controller → Outcome
unfolding transition
notify_stage_stopped c =
    let (c', r) = transition stage_stopped default_guards c in
    (if has_value r then log (publish (run_aborted c'.current_wafer_id)) c' else c', r)

-- What other threads post to the inbox, which the controller thread works off in order.
pub data Request : Type 0 where
  submit : Command → Request
  scan_complete_note : Text → Request
  processing_result_note : Bool → ℕ → Option AlarmId → String → Bool → Request
  fault_note : AlarmId → String → Request
  stage_stopped_note : Request

unfoldable pub serve : Request → Controller → Outcome
unfolding handle_command notify_scan_complete notify_processing_result notify_fault
    notify_stage_stopped
serve (submit command) c = handle_command command c
serve (scan_complete_note wafer_id) c = notify_scan_complete wafer_id c
serve (processing_result_note out_of_spec stress_mpa raised reason more) c =
    notify_processing_result out_of_spec stress_mpa raised reason more c
serve (fault_note id reason) c = notify_fault id reason c
serve stage_stopped_note c = notify_stage_stopped c

-- Controller::run, over what the inbox gives.
unfoldable pub run : List Request → Controller → Controller
run [] c = c
run (r ∷ rs) c = run rs (serve r c).0
