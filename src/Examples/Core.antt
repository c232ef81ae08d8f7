-- ===== src/Examples/Core.antt =====
-- The theorems about include/ssim/core and src/core at concrete inputs.
use semiconductor_metrology.Base.{
  ◌+◌, is_empty, codes, true, false, List, [], ◌∷◌, ◌≡◌, refl, ◌↔◌, some, ok, has_value,
  if◌then◌else◌, not, ◌&&◌, ◌||◌,
}
use semiconductor_metrology.Core.Process.{
  idle, scanning, processing, result_ready, stop, lines_complete, fault, clear_alarm, apply,
  default_guards, TransitionGuards,
}
use semiconductor_metrology.Core.Process.Table.{
  Row, machine, apply_iff_Row, stop_ends_run, stop_flag_survives_alarm,
}
use semiconductor_metrology.Core.Alarms.{
  queue_overflow, scan_stall, code, to_string, is_active, set, clear_all, cleared_notices,
  alarm_set, alarm_cleared,
}
use semiconductor_metrology.Core.Alarms.Laws
use semiconductor_metrology.Core.Alarms.Laws.{Op, sets, clears_all, perform, track}
use semiconductor_metrology.Core.Alarms.Announced
use semiconductor_metrology.Core.Alarms.Announced.{
  Action, calls, publishes, calls_of, sets_of, clears_of, announced_once,
}
use semiconductor_metrology.Core.Controller.{
  Controller, new, Command, start_command, stop_command, abort_command, set_control_mode_command,
  clear_alarm_command, ui, cli, secs_gem, offline, online_remote, is_remote, is_host, is_offline,
  same_state, handle_command, notify_fault, serve, Request, submit, fault_note, scan_complete_note,
  stage_stopped_note, processing_result_note,
}
use semiconductor_metrology.Core.Controller
use semiconductor_metrology.Core.Controller.Invariant.{Inv, observed}
use semiconductor_metrology.Core.Controller.Invariant.Reach.{run-new-Inv}
use semiconductor_metrology.Core.Controller.Rules.{offered, accepts, rules_for-accepts}
use semiconductor_metrology.Core.Controller.Control.{
  command_of, host_needs_remote, start_accepted, host_set_mode, refused_fault_is_silent,
}

abbrev more_wafers : TransitionGuards
more_wafers = record default_guards { more_wafers_pending = true }

apply_iff_Row_example :
    ((apply (machine processing true) result_ready more_wafers).1 ≡ ok idle)
    ↔ Row more_wafers true processing result_ready idle
apply_iff_Row_example = apply_iff_Row (machine processing true) result_ready more_wafers idle

stop_ends_run_example :
    apply
      (apply (apply (machine scanning false) stop default_guards).0 lines_complete default_guards).0
      result_ready
      more_wafers
    ≡ (machine idle false, ok idle)
stop_ends_run_example =
    stop_ends_run (machine scanning false) default_guards default_guards more_wafers refl

stop_flag_survives_alarm_example :
    (apply
      (apply (apply (machine scanning false) stop default_guards).0 fault default_guards).0
      clear_alarm
      default_guards).0
    ≡ machine idle true
stop_flag_survives_alarm_example =
    stop_flag_survives_alarm (machine scanning false) default_guards default_guards default_guards
      refl refl

-- One thread sets an alarm and another clears all, and publishes first.
abbrev alarm_actions : List Action
alarm_actions =
    calls (sets queue_overflow "full") ∷ calls clears_all ∷ publishes 1 ∷ publishes 0 ∷ []

announced_once_example :
    (track (code queue_overflow) false (Laws.run (calls_of alarm_actions) []).1
      ≡ some (is_active queue_overflow (Announced.run alarm_actions Announced.start).active))
    × (sets_of (code queue_overflow) (Announced.run alarm_actions Announced.start).waiting
          + sets_of (code queue_overflow) (Announced.run alarm_actions Announced.start).published
        ≡ sets_of (code queue_overflow) (Laws.run (calls_of alarm_actions) []).1)
    × (clears_of (code queue_overflow) (Announced.run alarm_actions Announced.start).waiting
          + clears_of (code queue_overflow) (Announced.run alarm_actions Announced.start).published
        ≡ clears_of (code queue_overflow) (Laws.run (calls_of alarm_actions) []).1)
announced_once_example = announced_once alarm_actions queue_overflow

-- The notice that was published last says set, while no alarm is active.
alarm_actions_lem :
    ((Announced.run alarm_actions Announced.start).published
      ≡ alarm_set 1006 "QueueOverflow" "full" ∷ alarm_cleared 1006 "QueueOverflow" ∷ [])
    × ((Announced.run alarm_actions Announced.start).active ≡ [])
unfolding Announced.run Announced.step Announced.publish_at perform set clear_all cleared_notices
    is_active code to_string
alarm_actions_lem = (refl, refl)

-- A run of one wafer that ends in a fault.
abbrev requests : List Request
requests =
    submit (command_of (start_command (codes "W001") 1) ui 1)
    ∷ scan_complete_note (codes "W001")
    ∷ fault_note scan_stall "stalled"
    ∷ []

run-new-Inv_example : Inv (Controller.run requests new)
run-new-Inv_example = run-new-Inv requests

new-Inv_again : Inv new
unfolding observed
new-Inv_again = record { mirrored = refl; flagged = refl; heard = refl }

rules_for-accepts_example :
    ((offered new).can_start ≡ accepts new (start_command (codes "W001") 1))
    × ((offered new).can_stop ≡ accepts new stop_command)
    × ((offered new).can_abort ≡ accepts new abort_command)
    × ((offered new).can_clear_alarm ≡ accepts new clear_alarm_command)
rules_for-accepts_example = rules_for-accepts new (codes "W001") 1 new-Inv_again refl

host_needs_remote_example :
    (has_value (handle_command (command_of (start_command (codes "W001") 1) secs_gem 1) new).1
      ≡ false)
    × ((handle_command (command_of (start_command (codes "W001") 1) secs_gem 1) new).0 ≡ new)
host_needs_remote_example =
    host_needs_remote new (command_of (start_command (codes "W001") 1) secs_gem 1) refl refl refl

start_accepted_example :
    has_value (handle_command (command_of (start_command (codes "W001") 1) ui 1) new).1 ≡ (
      same_state new.state idle
      && (if is_remote new.control_mode then is_host ui else not (is_host ui))
      && not (is_empty (codes "W001")))
start_accepted_example = start_accepted new (codes "W001") 1 1 ui new-Inv_again

host_set_mode_example :
    let r = handle_command (command_of (set_control_mode_command online_remote) secs_gem 1) new in
    let allowed = is_offline online_remote || is_offline new.control_mode in
    (r.0.control_mode ≡ (if allowed then online_remote else new.control_mode))
    × (has_value r.1 ≡ allowed)
    × (r.0.fsm ≡ new.fsm)
host_set_mode_example = host_set_mode new online_remote 1

refused_fault_is_silent_example : (notify_fault scan_stall "late" new).0 ≡ new
unfolding apply
refused_fault_is_silent_example = refused_fault_is_silent new scan_stall "late" refl
