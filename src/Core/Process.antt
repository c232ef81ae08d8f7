-- ===== src/Core/Process.antt =====
-- The process state machine (include/ssim/core/process_state_machine.hpp and
-- src/core/process_state_machine.cpp). `apply` returns the machine after the call and the result.
pub mod Reason
pub mod Table
use Reason
use semiconductor_metrology.Base.{Bool, true, false, not, ◌&&◌, Result, ok, fail, if◌then◌else◌}

pub data ProcessState : Type 0 where
  idle scanning processing alarm stopping : ProcessState

pub data ProcessTrigger : Type 0 where
  start lines_complete stop abort fault result_ready clear_alarm stage_stopped : ProcessTrigger

pub record TransitionGuards : Type 0 where
  pub control_allows_start : Bool
  pub has_active_alarm : Bool
  pub wafer_valid : Bool
  pub more_wafers_pending : Bool
  pub alarm_cause_cleared : Bool

abbrev pub default_guards : TransitionGuards
default_guards = record {
  control_allows_start = true;
  has_active_alarm = false;
  wafer_valid = true;
  more_wafers_pending = false;
  alarm_cause_cleared = true;
}

pub record ProcessStateMachine : Type 0 where
  pub state : ProcessState
  pub stop_after_wafer : Bool

abbrev pub initial : ProcessStateMachine
initial = record { state = idle; stop_after_wafer = false }

-- Each call returns the machine after it and what the caller gets.
abbrev pub Applied : Type 0
Applied = ProcessStateMachine × Result ProcessState

abbrev moved : ProcessStateMachine → ProcessState → Applied
moved m s = (record m { state = s }, ok s)

-- The machine leaves the run and forgets a stop request.
abbrev finished : Applied
finished = (record { state = idle; stop_after_wafer = false }, ok idle)

apply_idle : ProcessStateMachine → ProcessTrigger → TransitionGuards → Applied
apply_idle m start g =
    if not g.control_allows_start
    then (m, fail Reason.control_state_denied "Start denied by control state")
    else if g.has_active_alarm
    then (m, fail Reason.active_alarm "Start denied: an alarm is active")
    else if not g.wafer_valid
    then (m, fail Reason.invalid_wafer "Start denied: no valid wafer or cassette")
    else (record { state = scanning; stop_after_wafer = false }, ok scanning)
apply_idle m _ g = (m, fail Reason.illegal_transition "Idle only accepts Start")

apply_scanning : ProcessStateMachine → ProcessTrigger → Applied
apply_scanning m lines_complete = moved m processing
apply_scanning m stop = (record m { stop_after_wafer = true }, ok m.state)
apply_scanning m abort = moved m stopping
apply_scanning m fault = moved m alarm
apply_scanning m _ =
    (m, fail Reason.illegal_transition "Scanning only accepts LinesComplete, Stop, Abort, Fault")

apply_processing : ProcessStateMachine → ProcessTrigger → TransitionGuards → Applied
apply_processing m result_ready g =
    if g.more_wafers_pending && not m.stop_after_wafer then moved m scanning else finished
apply_processing m fault g = moved m alarm
apply_processing m abort g = moved m stopping
apply_processing m _ g =
    (m, fail Reason.illegal_transition "Processing only accepts ResultReady, Fault, Abort")

apply_alarm : ProcessStateMachine → ProcessTrigger → TransitionGuards → Applied
apply_alarm m clear_alarm g =
    if not g.alarm_cause_cleared
    then (m, fail Reason.alarm_not_cleared "ClearAlarm denied: cause still present")
    else moved m idle
apply_alarm m _ g = (m, fail Reason.illegal_transition "Alarm only accepts ClearAlarm")

apply_stopping : ProcessStateMachine → ProcessTrigger → Applied
apply_stopping m stage_stopped = finished
apply_stopping m _ = (m, fail Reason.illegal_transition "Stopping only accepts StageStopped")

-- The outer switch, on the state.
dispatch : ProcessState → ProcessStateMachine → ProcessTrigger → TransitionGuards → Applied
dispatch idle m t g = apply_idle m t g
dispatch scanning m t g = apply_scanning m t
dispatch processing m t g = apply_processing m t g
dispatch alarm m t g = apply_alarm m t g
dispatch stopping m t g = apply_stopping m t

unfoldable pub apply : ProcessStateMachine → ProcessTrigger → TransitionGuards → Applied
unfolding dispatch apply_idle apply_scanning apply_processing apply_alarm apply_stopping
apply m t g = dispatch m.state m t g
