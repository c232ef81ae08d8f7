-- ===== src/Gem/Service/Commands/Hcack.antt =====
-- What a remote command leads to (GemService::execute_command of src/secsgem/gem/gem_service.cpp):
-- the parameters that a command may have, described on their own, and the answer.
use semiconductor_metrology.Base.{
  ℕ, ◌+◌, ◌%◌, ◌^◌, Bool-cases, Bool, true, false, ◌&&◌, ◌||◌, ◌==◌, List, [], ◌∷◌, Option, none,
  some, ◌≡◌, ◌⊎◌, inl, inr, refl, sym, ◌∙◌, arith, Result, ok, err, has_value, if◌then◌else◌, Text,
  codes, text_eq, is_empty,
}
use semiconductor_metrology.Core.Process.{ProcessState, idle, scanning, processing, alarm, apply}
use semiconductor_metrology.Core.Controller.{
  Controller, CommandPayload, secs_gem, is_remote, start_command, stop_command, abort_command,
  clear_alarm_command, set_control_mode_command, control_allows_set_mode, handle_command,
  same_state, control_allows_start, control_allows_host_command,
}
use semiconductor_metrology.Core.Controller.Invariant.{Inv}
use semiconductor_metrology.Core.Controller.Control.{command_of}
use semiconductor_metrology.Core.MachineApi.{Machine, submit}
use semiconductor_metrology.Gem.Messages.{CommandParam, RemoteCommand, ParamAck, as_ascii}
use semiconductor_metrology.Gem.Identifiers.{
  hcack_done, hcack_unknown_command, hcack_cannot_perform_now, hcack_invalid_parameter,
  hcack_accepted_later,
}
use semiconductor_metrology.Gem.Service.Commands.{
  CommandName, start, stop, abort, clear_alarm, command_name, valid_wafer_id, known_alid, as_u32,
  Args, no_args, judge_wafer, judge_alid, judge_param, judge_params, payload, request_of, Execution,
  done_hcack, outcome, perform, execute_named, execute_command,
}

-- The wafer of a parameter WAFER_ID with a valid id.
unfoldable pub valid_wafer : Option Text → Option CommandPayload
valid_wafer none = none
valid_wafer (some id) = if valid_wafer_id id then some (start_command id 1) else none

unfoldable pub wafer_of : CommandParam → Option CommandPayload
wafer_of p = if text_eq p.name (codes "WAFER_ID") then valid_wafer (as_ascii p.value) else none

unfoldable pub names_alarm : Option ℕ → Bool
names_alarm none = false
names_alarm (some alid) = known_alid alid

unfoldable pub all_alids : List CommandParam → Bool
all_alids [] = true
all_alids (p ∷ ps) = text_eq p.name (codes "ALID") && names_alarm (as_u32 p.value) && all_alids ps

-- What a command asks of the machine: START has exactly one parameter, a WAFER_ID; STOP and ABORT
-- have none; CLEAR_ALARM may name alarms.
unfoldable pub asks : CommandName → List CommandParam → Option CommandPayload
asks start [] = none
asks start (p ∷ []) = wafer_of p
asks start (p ∷ q ∷ ps) = none
asks stop [] = some stop_command
asks stop (p ∷ ps) = none
asks abort [] = some abort_command
asks abort (p ∷ ps) = none
asks clear_alarm ps = if all_alids ps then some clear_alarm_command else none

refused_stays :
    (name : CommandName) (p : CommandParam) (a : Args)
    → a.params_ok ≡ false
    → (judge_param name p a).params_ok ≡ false
unfolding judge_param judge_wafer judge_alid
refused_stays start p a h = ground arith
refused_stays stop p a h = refl
refused_stays abort p a h = refl
refused_stays clear_alarm p a h = ground arith

stays_refused :
    (name : CommandName) (ps : List CommandParam) (a : Args)
    → a.params_ok ≡ false
    → request_of name (judge_params name ps a) ≡ none
unfolding judge_params request_of
stays_refused name [] a h = rw (h) refl
stays_refused name (p ∷ ps) a h =
    stays_refused name ps (judge_param name p a) (refused_stays name p a h)

one_wafer : (p : CommandParam) → request_of start (judge_params start (p ∷ []) no_args) ≡ wafer_of p
unfolding judge_params judge_param judge_wafer request_of payload wafer_of valid_wafer
one_wafer p = ground arith

second_refused :
    (p q : CommandParam) → (judge_param start q (judge_param start p no_args)).params_ok ≡ false
unfolding judge_param judge_wafer
second_refused p q = ground arith

alid_ok :
    (p : CommandParam) (a : Args)
    → (judge_param clear_alarm p a).params_ok
      ≡ (a.params_ok && (text_eq p.name (codes "ALID") && names_alarm (as_u32 p.value)))
unfolding judge_param judge_alid names_alarm
alid_ok p a = ground arith

alarms_asked :
    (ps : List CommandParam) (a : Args)
    → request_of clear_alarm (judge_params clear_alarm ps a)
      ≡ (if a.params_ok && all_alids ps then some clear_alarm_command else none)
unfolding judge_params request_of payload all_alids
alarms_asked [] a = ground arith
alarms_asked (p ∷ ps) a = alarms_asked ps (judge_param clear_alarm p a) ∙ regroup (alid_ok p a)
  where
    regroup :
        {x : Bool}
        → x ≡ (a.params_ok && (text_eq p.name (codes "ALID") && names_alarm (as_u32 p.value)))
        → (if x && all_alids ps then some clear_alarm_command else none) ≡ (
            if a.params_ok
              && (text_eq p.name (codes "ALID") && names_alarm (as_u32 p.value) && all_alids ps)
            then some clear_alarm_command
            else none)
    regroup h = rw (h) (ground arith)

-- The parameters that the service finds good are those that the description has, whatever their
-- number and order.
judged_as_asked :
    (name : CommandName) (ps : List CommandParam)
    → request_of name (judge_params name ps no_args) ≡ asks name ps
unfolding asks request_of judge_params payload judge_param
judged_as_asked start [] = refl
judged_as_asked start (p ∷ []) = one_wafer p
judged_as_asked start (p ∷ q ∷ ps) =
    stays_refused start ps (judge_param start q (judge_param start p no_args)) (second_refused p q)
judged_as_asked stop [] = refl
judged_as_asked stop (p ∷ ps) = stays_refused stop ps (judge_param stop p no_args) refl
judged_as_asked abort [] = refl
judged_as_asked abort (p ∷ ps) = stays_refused abort ps (judge_param abort p no_args) refl
judged_as_asked clear_alarm ps = alarms_asked ps no_args

-- What the state machine lets the host do in Online-Remote.
unfoldable pub can_do : CommandPayload → ProcessState → Bool
can_do (start_command wafer_id slot) s = same_state s idle
can_do stop_command s = same_state s scanning
can_do abort_command s = same_state s scanning || same_state s processing
can_do clear_alarm_command s = same_state s alarm
can_do (set_control_mode_command mode) s = false

unfoldable pub answer_to : CommandName → Option CommandPayload → Controller → ℕ
answer_to name none c = hcack_invalid_parameter
answer_to name (some p) c = if can_do p c.state then done_hcack name else hcack_cannot_perform_now

-- The acknowledge code that a command should get.
unfoldable pub answer_of : Option CommandName → List CommandParam → Controller → ℕ
unfolding answer_to asks
answer_of none params c = hcack_unknown_command
answer_of (some name) params c =
    if is_remote c.control_mode
    then answer_to name (asks name params) c
    else hcack_cannot_perform_now

abbrev Named : CommandPayload → Type 0
Named (start_command wafer_id slot) = is_empty wafer_id ≡ false
Named (set_control_mode_command mode) = ⊥
Named _ = Unit

abbrev Sensible : Option CommandPayload → Type 0
Sensible none = Unit
Sensible (some p) = Named p

asks-Sensible : (name : CommandName) (ps : List CommandParam) → Sensible (asks name ps)
unfolding asks wafer_of valid_wafer valid_wafer_id
asks-Sensible start [] = tt
asks-Sensible start (p ∷ []) = ground arith
asks-Sensible start (p ∷ q ∷ ps) = tt
asks-Sensible stop [] = tt
asks-Sensible stop (p ∷ ps) = tt
asks-Sensible abort [] = tt
asks-Sensible abort (p ∷ ps) = tt
asks-Sensible clear_alarm ps = ground arith

host_accepted :
    (c : Controller) (p : CommandPayload) (k : ℕ)
    → Inv c
    → is_remote c.control_mode ≡ true
    → Named p
    → has_value (handle_command (command_of p secs_gem k) c).1 ≡ can_do p c.state
unfolding handle_command apply control_allows_start control_allows_host_command can_do
host_accepted c p k v r n = ground arith

refused_unchanged :
    (c : Controller) (p : CommandPayload) (k : ℕ)
    → has_value (handle_command (command_of p secs_gem k) c).1 ≡ false
    → (handle_command (command_of p secs_gem k) c).0 ≡ c
unfolding handle_command apply control_allows_start control_allows_host_command
    control_allows_set_mode
refused_unchanged c p k r = ground arith

-- The acknowledge code is `code`; the machine is only touched where the command was carried out,
-- and then by the controller's own step.
abbrev pub Answered : ℕ → Machine → Machine × Execution → Type 0
Answered code m (m', e) =
    (e.hcack ≡ code)
    × (has_value e.result ≡ (code == hcack_done || code == hcack_accepted_later))
    × ((has_value e.result ≡ true) ⊎ (m'.controller ≡ m.controller))

performed :
    (name : CommandName) (acks : List ParamAck) (p : Option CommandPayload) (m : Machine)
    → Inv m.controller
    → is_remote m.controller.control_mode ≡ true
    → Sensible p
    → Answered (answer_to name p m.controller) m (perform name acks p m)
unfolding perform outcome answer_to done_hcack submit
performed name acks none m v r s = (refl, refl, inr refl)
performed name acks (some p) m v r s =
    by_result (handle_command (command_of p secs_gem m.next_correlation_id) m.controller)
      (host_accepted m.controller p m.next_correlation_id v r s)
      (refused_unchanged m.controller p m.next_correlation_id)
  where
    by_result :
        (o : Controller × Result ProcessState)
        → has_value o.1 ≡ can_do p m.controller.state
        → (has_value o.1 ≡ false → o.0 ≡ m.controller)
        → Answered
            (if can_do p m.controller.state then done_hcack name else hcack_cannot_perform_now)
            m
            (
              record m {
                controller = o.0;
                next_correlation_id = (m.next_correlation_id + 1) % 2 ^ 64;
              },
              outcome name acks o.1,
            )
    by_result (c, ok s') accepted unchanged = rw (sym accepted) (refl, ground arith, inl refl)
    by_result (c, err e) accepted unchanged = rw (sym accepted) (refl, refl, inr (unchanged refl))

executed :
    (name : Option CommandName) (params : List CommandParam) (m : Machine)
    → Inv m.controller
    → Answered (answer_of name params m.controller) m (execute_named name params m)
unfolding execute_named answer_of
executed none params m v = (refl, refl, inr refl)
executed (some name) params m v = elim (Bool-cases (is_remote m.controller.control_mode)) [
  | inr h ↦ rw (h) (refl, refl, inr refl)
  | inl h ↦
      rw (h, judged_as_asked name params)
        (performed name (judge_params name params no_args).acks (asks name params) m v h
          (asks-Sensible name params))
]

-- Let the controller be in a state that it can be in. A remote command is answered with HCACK 1 where
-- its name is unknown, 2 outside Online-Remote, 3 where its parameters are not those it may have, 2
-- where the state does not allow it, and otherwise 4 for START and 0 for the rest. Where the answer
-- is 1, 2 or 3 the controller is as it was.
pub execute_command-hcack :
    (command : RemoteCommand) (m : Machine)
    → Inv m.controller
    → Answered
        (answer_of (command_name command.rcmd) command.params m.controller)
        m
        (execute_command command m)
unfolding execute_command
execute_command-hcack command m = executed (command_name command.rcmd) command.params m
