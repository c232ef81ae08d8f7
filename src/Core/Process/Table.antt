-- ===== src/Core/Process/Table.antt =====
-- The process state machine of src/core/process_state_machine.cpp against the table of
-- docs/PRD.md, section 6.5.
use semiconductor_metrology.Base.{◌≡◌, refl, ◌⊎◌, ◌↔◌, Bool, true, false, Result, ok, err, arith}
use semiconductor_metrology.Core.Process.{
  ProcessState, idle, scanning, processing, alarm, stopping, ProcessTrigger, start, lines_complete,
  stop, abort, fault, result_ready, clear_alarm, stage_stopped, TransitionGuards,
  ProcessStateMachine, apply,
}

-- A row of the table: from, trigger, to. Guards and the stop flag are premises.
pub data Row (g : TransitionGuards) (flag : Bool)
    : ProcessState → ProcessTrigger → ProcessState → Type 0 where
  starts :
      g.control_allows_start ≡ true
      → g.has_active_alarm ≡ false
      → g.wafer_valid ≡ true
      → Row g flag idle start scanning
  lines : Row g flag scanning lines_complete processing
  stops : Row g flag scanning stop scanning
  aborts_scan : Row g flag scanning abort stopping
  faults_scan : Row g flag scanning fault alarm
  next_wafer :
      g.more_wafers_pending ≡ true → flag ≡ false → Row g flag processing result_ready scanning
  last_wafer :
      (g.more_wafers_pending ≡ false) ⊎ (flag ≡ true) → Row g flag processing result_ready idle
  faults_processing : Row g flag processing fault alarm
  aborts_processing : Row g flag processing abort stopping
  clears : g.alarm_cause_cleared ≡ true → Row g flag alarm clear_alarm idle
  stopped : Row g flag stopping stage_stopped idle

abbrev pub machine : ProcessState → Bool → ProcessStateMachine
machine s flag = record { state = s; stop_after_wafer = flag }

Row-apply :
    {g : TransitionGuards} {flag : Bool} {s s' : ProcessState} {t : ProcessTrigger}
    → Row g flag s t s'
    → (apply (machine s flag) t g).1 ≡ ok s'
unfolding apply
Row-apply (starts a b c) = ground arith
Row-apply lines = refl
Row-apply stops = refl
Row-apply aborts_scan = refl
Row-apply faults_scan = refl
Row-apply (next_wafer a b) = ground arith
Row-apply (last_wafer a) = ground arith
Row-apply faults_processing = refl
Row-apply aborts_processing = refl
Row-apply (clears a) = ground arith
Row-apply stopped = refl

apply-Row :
    (g : TransitionGuards) (flag : Bool) (s s' : ProcessState) (t : ProcessTrigger)
    → (apply (machine s flag) t g).1 ≡ ok s'
    → Row g flag s t s'
unfolding apply
apply-Row g flag idle scanning start e = starts (ground arith) (ground arith) (ground arith)
apply-Row g flag scanning processing lines_complete e = lines
apply-Row g flag scanning scanning stop e = stops
apply-Row g flag scanning stopping abort e = aborts_scan
apply-Row g flag scanning alarm fault e = faults_scan
apply-Row g flag processing scanning result_ready e = next_wafer (ground arith) (ground arith)
apply-Row g flag processing idle result_ready e = last_wafer (ground arith)
apply-Row g flag processing alarm fault e = faults_processing
apply-Row g flag processing stopping abort e = aborts_processing
apply-Row g flag alarm idle clear_alarm e = clears (ground arith)
apply-Row g flag stopping idle stage_stopped e = stopped
apply-Row g flag s s' t e = absurd (ground arith)

-- `apply` succeeds with a state exactly when the table has a row from the machine's state, under
-- this trigger and these guards, to that state.
pub apply_iff_Row :
    (m : ProcessStateMachine) (t : ProcessTrigger) (g : TransitionGuards) (s' : ProcessState)
    → ((apply m t g).1 ≡ ok s') ↔ Row g m.stop_after_wafer m.state t s'
apply_iff_Row m t g s' = (apply-Row g m.stop_after_wafer m.state s' t, Row-apply)

abbrev pub AfterCall : ProcessStateMachine → ProcessStateMachine × Result ProcessState → Type 0
AfterCall m (m', ok s) = m'.state ≡ s
AfterCall m (m', err e) = m' ≡ m

-- After a call that succeeds the machine is in the state that the call returned; a call that is
-- rejected leaves state and stop flag as they were.
pub apply_after :
    (m : ProcessStateMachine) (t : ProcessTrigger) (g : TransitionGuards)
    → AfterCall m (apply m t g)
unfolding apply
apply_after m t g = ground arith

-- A stop request while a wafer is scanned ends the run after that wafer: when its lines complete
-- and its result is ready, the machine is idle, with more wafers waiting or not, and the request
-- is forgotten.
pub stop_ends_run :
    (m : ProcessStateMachine) (g₁ g₂ g₃ : TransitionGuards)
    → m.state ≡ scanning
    → let stopped' = (apply m stop g₁).0 in
      let measured = (apply stopped' lines_complete g₂).0 in
      apply measured result_ready g₃ ≡ (machine idle false, ok idle)
unfolding apply
stop_ends_run m g₁ g₂ g₃ e = ground arith

-- A stop request is not forgotten by a fault: after a stop request while scanning, a fault and a
-- cleared alarm, the machine is idle and still says that a stop was requested.
pub stop_flag_survives_alarm :
    (m : ProcessStateMachine) (g₁ g₂ g₃ : TransitionGuards)
    → m.state ≡ scanning
    → g₃.alarm_cause_cleared ≡ true
    → let stopped' = (apply m stop g₁).0 in
      let faulted = (apply stopped' fault g₂).0 in
      (apply faulted clear_alarm g₃).0 ≡ machine idle true
unfolding apply
stop_flag_survives_alarm m g₁ g₂ g₃ e h = ground arith
