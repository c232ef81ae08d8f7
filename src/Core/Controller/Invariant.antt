-- ===== src/Core/Controller/Invariant.antt =====
-- What holds of the controller of src/core/controller.cpp after any requests.
pub mod Reach
use semiconductor_metrology.Base.{
  if◌then◌else◌, ℕ, String, Bool, true, false, not, ◌&&◌, ◌||◌, List, [], ◌∷◌, Option, none, some,
  Result, ok, err, ◌↔◌, ◌≡◌, refl, arith, has_value, ◌∙◌, sym,
}
use semiconductor_metrology.Core.Process.{
  ProcessState, ProcessTrigger, TransitionGuards, ProcessStateMachine, idle, scanning, processing,
  alarm, stopping, fault, clear_alarm, apply,
}
use semiconductor_metrology.Core.Process.Table.{apply_after}
use semiconductor_metrology.Core.Alarms.{AlarmId, Active, Notice}
use semiconductor_metrology.Core.Alarms
use semiconductor_metrology.Core.Controller.{
  Controller, Effect, publish, state_changed, Command, Request, submit, scan_complete_note,
  processing_result_note, fault_note, stage_stopped_note, transition, handle_command,
  notify_scan_complete, notify_processing_result, notify_fault, notify_stage_stopped, serve, run,
  new, notices, alarm_notice, same_state, raise, cleared, CommandSource, handle_start, handle_stop,
  handle_abort, handle_clear_alarm, handle_set_mode, on_success, Outcome, log, begin_run,
  finish_wafer,
}

abbrev pub is_alarm : ProcessState → Bool
is_alarm alarm = true
is_alarm _ = false

-- The state that a listener to StateChanged knows, when each event starts from the state that the
-- one before ended in; the trace has the newest first. `none` where two events do not meet.
abbrev follow : Option ProcessState → ProcessState → ProcessState → Option ProcessState
follow none from to = none
follow (some s) from to = if same_state s from then some to else none

unfoldable pub observed : List Effect → Option ProcessState
observed [] = some idle
observed (publish (state_changed from to) ∷ rest) = follow (observed rest) from to
observed (_ ∷ rest) = observed rest

pub record Inv (c : Controller) : Type 0 where
  -- The polled copy is the state of the machine.
  pub mirrored : c.state ≡ c.fsm.state
  -- The alarm flag is up exactly in the Alarm state.
  pub flagged : c.has_active_alarm ≡ is_alarm c.fsm.state
  -- A listener that follows StateChanged knows the state.
  pub heard : observed c.trace ≡ some c.fsm.state

observed-notices : (ns : List Notice) (tr : List Effect) → observed (notices ns tr) ≡ observed tr
unfolding observed notices
observed-notices [] tr = refl
observed-notices (n ∷ ns) tr = observed-notices ns (publish (alarm_notice n) ∷ tr)

same_state_eq : (a b : ProcessState) → same_state a b ≡ true → a ≡ b
same_state_eq a b h = ground arith

same_state_refl : (a : ProcessState) → same_state a a ≡ true
same_state_refl a = ground arith

record Mirror (c : Controller) : Type 0 where
  mirrored : c.state ≡ c.fsm.state
  heard : observed c.trace ≡ some c.fsm.state

transition-Mirror :
    (t : ProcessTrigger) (g : TransitionGuards) (c : Controller)
    → Mirror c
    → Mirror (transition t g c).0
unfolding transition observed
transition-Mirror t g c v = ground (
  arith,
  apply_after c.fsm t g,
  same_state_eq (apply c.fsm t g).0.state c.fsm.state,
  same_state_refl c.fsm.state,
)

-- A trigger that neither raises nor clears an alarm.
abbrev is_quiet : ProcessTrigger → Bool
is_quiet fault = false
is_quiet clear_alarm = false
is_quiet _ = true

apply_quiet :
    (m : ProcessStateMachine) (t : ProcessTrigger) (g : TransitionGuards)
    → is_quiet t ≡ true
    → is_alarm (apply m t g).0.state ≡ is_alarm m.state
unfolding apply
apply_quiet m t g h = ground arith

apply_fault :
    (m : ProcessStateMachine) (g : TransitionGuards)
    → has_value (apply m fault g).1 ≡ true
    → is_alarm (apply m fault g).0.state ≡ true
unfolding apply
apply_fault m g h = ground arith

apply-clear_alarm :
    (m : ProcessStateMachine) (g : TransitionGuards)
    → has_value (apply m clear_alarm g).1 ≡ true
    → is_alarm (apply m clear_alarm g).0.state ≡ false
unfolding apply
apply-clear_alarm m g h = ground arith

transition_parts :
    (t : ProcessTrigger) (g : TransitionGuards) (c : Controller)
    → let (c', r) = transition t g c in
      ((c'.fsm ≡ (apply c.fsm t g).0) × (r ≡ (apply c.fsm t g).1))
      × (c'.has_active_alarm ≡ c.has_active_alarm)
unfolding transition
transition_parts t g c = ground arith

transition-Inv :
    (t : ProcessTrigger) (g : TransitionGuards) (c : Controller)
    → is_quiet t ≡ true
    → Inv c
    → Inv (transition t g c).0
transition-Inv t g c q v =
    let w : Mirror (transition t g c).0 =
      transition-Mirror t g c (record { mirrored = v.mirrored; heard = v.heard }) in
    record {
      mirrored = w.mirrored;
      flagged = ground (arith, transition_parts t g c, apply_quiet c.fsm t g q, v.flagged);
      heard = w.heard;
    }

raise-Inv :
    (id : AlarmId) (reason : String) (c : Controller)
    → Mirror c
    → is_alarm c.fsm.state ≡ true
    → Inv (raise id reason c)
unfolding raise observed
raise-Inv id reason c w h = record {
  mirrored = w.mirrored;
  flagged = sym h;
  heard = observed-notices (Alarms.set id reason c.alarms).1 c.trace ∙ w.heard;
}

cleared-Inv : (c : Controller) → Mirror c → is_alarm c.fsm.state ≡ false → Inv (cleared c)
unfolding cleared observed
cleared-Inv c w h = record {
  mirrored = w.mirrored;
  flagged = sym h;
  heard = observed-notices (Alarms.clear_all c.alarms).1 c.trace ∙ w.heard;
}
