-- ===== src/Core/Controller/Rules.antt =====
-- The operator buttons of include/ssim/core/ui_rules.hpp and src/core/ui_rules.cpp, against what
-- the controller accepts.
use semiconductor_metrology.Base.{
  is_empty, Text, ℕ, Bool, false, not, ◌&&◌, ◌||◌, ◌≡◌, arith, has_value,
}
use semiconductor_metrology.Core.Process.{ProcessState, idle, scanning, processing, alarm, apply}
use semiconductor_metrology.Core.Controller.{
  Controller, CommandPayload, start_command, stop_command, abort_command, clear_alarm_command, ui,
  ControlMode, is_remote, is_empty, same_state, handle_command, control_allows_start,
  control_allows_host_command,
}
use semiconductor_metrology.Core.Controller.Invariant.{Inv}

pub record ActionRules : Type 0 where
  pub can_start : Bool
  pub can_stop : Bool
  pub can_abort : Bool
  pub can_clear_alarm : Bool
  pub can_change_mode : Bool

pub rules_for : ProcessState → ControlMode → Bool → ActionRules
rules_for state mode alarm_active = record {
  can_start = same_state state idle && not alarm_active && not (is_remote mode);
  can_stop = same_state state scanning;
  can_abort = same_state state scanning || same_state state processing;
  can_clear_alarm = same_state state alarm;
  can_change_mode = same_state state idle || same_state state alarm;
}

-- Does the controller accept this command from the panel?
abbrev pub accepts : Controller → CommandPayload → Bool
accepts c p =
    has_value (handle_command (record { payload = p; source = ui; correlation_id = 0 }) c).1

abbrev pub offered : Controller → ActionRules
offered c = rules_for c.state c.control_mode c.has_active_alarm

-- In every state that the controller can be in, the panel offers Start (of a named wafer), Stop,
-- Abort and ClearAlarm exactly when the controller would accept that command from it.
pub rules_for-accepts :
    (c : Controller) (wafer_id : Text) (slot : ℕ)
    → Inv c
    → is_empty wafer_id ≡ false
    → ((offered c).can_start ≡ accepts c (start_command wafer_id slot))
      × ((offered c).can_stop ≡ accepts c stop_command)
      × ((offered c).can_abort ≡ accepts c abort_command)
      × ((offered c).can_clear_alarm ≡ accepts c clear_alarm_command)
unfolding rules_for handle_command apply control_allows_start control_allows_host_command
rules_for-accepts c wafer_id slot v h = (ground arith, ground arith, ground arith, ground arith)
