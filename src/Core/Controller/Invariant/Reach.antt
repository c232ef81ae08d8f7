-- ===== src/Core/Controller/Invariant/Reach.antt =====
-- The invariant of the controller of src/core/controller.cpp and the requests that it serves.
use semiconductor_metrology.Base.{
  Text, if◌then◌else◌, ℕ, String, Bool, true, false, List, [], ◌∷◌, none, some, ok, err, ◌≡◌, refl,
  arith, has_value, Bool-cases, inl, inr, ◌∙◌,
}
use semiconductor_metrology.Core.Process.{
  ProcessTrigger, TransitionGuards, fault, clear_alarm, apply, stage_stopped, result_ready,
  default_guards,
}
use semiconductor_metrology.Core.Process.Table.{apply_after}
use semiconductor_metrology.Core.Alarms.{AlarmId}
use semiconductor_metrology.Core.Controller.{
  Controller, Effect, CommandPayload, start_command, stop_command, abort_command,
  clear_alarm_command, set_control_mode_command, CommandSource, ControlMode, Request, submit,
  scan_complete_note, processing_result_note, fault_note, stage_stopped_note, transition, visit,
  handle_command, notify_scan_complete, notify_processing_result, notify_fault,
  notify_stage_stopped, serve, run, new, raise, cleared, handle_start, handle_stop, handle_abort,
  handle_clear_alarm, handle_set_mode, on_success, Outcome, log, begin_run, finish_wafer, publish,
  scan_lines_complete, run_aborted, scan_complete, control_allows_host_command,
  control_allows_set_mode, wafer_out_of_spec, driver_request_abort,
}
use semiconductor_metrology.Core.Controller.Invariant.{
  Inv, Mirror, observed, is_alarm, transition-Mirror, transition-Inv, transition_parts, raise-Inv,
  cleared-Inv, apply_fault, apply-clear_alarm,
}

on_success-Inv :
    (k : Controller → Controller) (o : Outcome)
    → ((c : Controller) → Inv c → Inv (k c))
    → Inv o.0
    → Inv (on_success k o).0
on_success-Inv k (c, ok s) keep v = keep c v
on_success-Inv k (c, err e) keep v = v

-- The two triggers that move in or out of Alarm, with what the handler does on success.
alarm_change-Inv :
    (k : Controller → Controller) (t : ProcessTrigger) (g : TransitionGuards) (c : Controller)
    (b : Bool)
    → ((c : Controller) → Mirror c → is_alarm c.fsm.state ≡ b → Inv (k c))
    → (has_value (apply c.fsm t g).1 ≡ true → is_alarm (apply c.fsm t g).0.state ≡ b)
    → Inv c
    → Inv (on_success k (transition t g c)).0
alarm_change-Inv k t g c b keep lands v = split (transition t g c) refl
  where
    w : Mirror (transition t g c).0
    w = transition-Mirror t g c (record { mirrored = v.mirrored; heard = v.heard })

    split : (o : Outcome) → transition t g c ≡ o → Inv (on_success k o).0
    split (c', ok s) e = keep c' (rw e at w) (ground (arith, transition_parts t g c, lands, e))
    split (c', err x) e = record {
      mirrored = (rw e at w).mirrored;
      flagged = ground (arith, transition_parts t g c, apply_after c.fsm t g, v.flagged, e);
      heard = (rw e at w).heard;
    }

log-Inv :
    (e : Effect) (c : Controller)
    → observed (e ∷ c.trace) ≡ observed c.trace
    → Inv c
    → Inv (log e c)
log-Inv e c h v = record { mirrored = v.mirrored; flagged = v.flagged; heard = h ∙ v.heard }

begin_run-Inv :
    (wafer_id : Text) (slot : ℕ) (c : Controller) → Inv c → Inv (begin_run wafer_id slot c)
unfolding begin_run observed
begin_run-Inv wafer_id slot c v = record {
  mirrored = v.mirrored;
  flagged = v.flagged;
  heard = v.heard;
}

handle_start-Inv :
    (wafer_id : Text) (slot : ℕ) (source : CommandSource) (c : Controller)
    → Inv c
    → Inv (handle_start wafer_id slot source c).0
unfolding handle_start
handle_start-Inv wafer_id slot source c v =
    on_success-Inv _ _ (begin_run-Inv wafer_id slot) (transition-Inv _ _ c refl v)

handle_stop-Inv : (source : CommandSource) (c : Controller) → Inv c → Inv (handle_stop source c).0
unfolding handle_stop
handle_stop-Inv source c v = elim (Bool-cases (control_allows_host_command c.control_mode source)) [
  | inl e ↦ rw e (transition-Inv _ _ c refl v)
  | inr e ↦ rw e v
]

handle_abort-Inv : (source : CommandSource) (c : Controller) → Inv c → Inv (handle_abort source c).0
unfolding handle_abort observed
handle_abort-Inv source c v =
    elim (Bool-cases (control_allows_host_command c.control_mode source)) [
      | inl e ↦ rw e (
          on_success-Inv _ _ (λ c' v'. log-Inv driver_request_abort c' refl v')
            (transition-Inv _ _ c refl v))
      | inr e ↦ rw e v
    ]

handle_clear_alarm-Inv :
    (source : CommandSource) (c : Controller) → Inv c → Inv (handle_clear_alarm source c).0
unfolding handle_clear_alarm
handle_clear_alarm-Inv source c v =
    elim (Bool-cases (control_allows_host_command c.control_mode source)) [
      | inl e ↦
          rw e (
            alarm_change-Inv cleared clear_alarm _ c false cleared-Inv (apply-clear_alarm c.fsm _)
              v)
      | inr e ↦ rw e v
    ]

handle_set_mode-Inv :
    (mode : ControlMode) (source : CommandSource) (c : Controller)
    → Inv c
    → Inv (handle_set_mode mode source c).0
unfolding handle_set_mode observed
handle_set_mode-Inv mode source c v =
    elim (Bool-cases (control_allows_set_mode mode c.control_mode source)) [
      | inl e ↦ rw e (record { mirrored = v.mirrored; flagged = v.flagged; heard = v.heard })
      | inr e ↦ rw e v
    ]

visit-Inv :
    (p : CommandPayload) (source : CommandSource) (c : Controller)
    → Inv c
    → Inv (visit p source c).0
unfolding visit
visit-Inv (start_command wafer_id slot) source c v = handle_start-Inv wafer_id slot source c v
visit-Inv stop_command source c v = handle_stop-Inv source c v
visit-Inv abort_command source c v = handle_abort-Inv source c v
visit-Inv clear_alarm_command source c v = handle_clear_alarm-Inv source c v
visit-Inv (set_control_mode_command mode) source c v = handle_set_mode-Inv mode source c v

notify_fault-Inv :
    (id : AlarmId) (reason : String) (c : Controller) → Inv c → Inv (notify_fault id reason c).0
unfolding notify_fault
notify_fault-Inv id reason c v =
    alarm_change-Inv (raise id reason) fault _ c true (raise-Inv id reason) (apply_fault c.fsm _) v

finish_wafer-Inv :
    (out_of_spec : Bool) (stress_mpa : ℕ) (more : Bool) (c : Controller)
    → Inv c
    → Inv (finish_wafer out_of_spec stress_mpa more c).0
unfolding finish_wafer observed
finish_wafer-Inv out_of_spec stress_mpa more c v =
    on_success-Inv (log done) (transition result_ready guards before)
      (λ c' v'. log-Inv done c' refl v') (transition-Inv result_ready guards before refl ready)
  where
    done : Effect
    done = publish (scan_complete c.current_wafer_id 0 out_of_spec)

    guards : TransitionGuards
    guards = record default_guards { more_wafers_pending = more }

    before : Controller
    before =
        if out_of_spec then log (publish (wafer_out_of_spec c.current_wafer_id stress_mpa)) c else c

    ready : Inv before
    ready =
        elim out_of_spec
          as (λ b.
            Inv (
              if b then log (publish (wafer_out_of_spec c.current_wafer_id stress_mpa)) c else c)) [
                | true ↦ log-Inv _ c refl v
                | false ↦ v
              ]

notify_stage_stopped-Inv : (c : Controller) → Inv c → Inv (notify_stage_stopped c).0
unfolding notify_stage_stopped observed
notify_stage_stopped-Inv c v =
    on_success-Inv (λ c'. log (publish (run_aborted c'.current_wafer_id)) c')
      (transition stage_stopped default_guards c) (λ c' v'. log-Inv _ c' refl v')
      (transition-Inv _ _ c refl v)

-- Whatever the controller is asked, afterwards the state that it publishes is the state of its
-- machine, its alarm flag is up exactly in the Alarm state, and the StateChanged events published
-- so far form a chain from Idle to that state.
pub serve-Inv : (r : Request) (c : Controller) → Inv c → Inv (serve r c).0
unfolding serve handle_command notify_scan_complete notify_processing_result observed
serve-Inv (submit command) c v = visit-Inv command.payload command.source c v
serve-Inv (scan_complete_note wafer_id) c v =
    transition-Inv _ _ _ refl (log-Inv (publish (scan_lines_complete wafer_id)) c refl v)
serve-Inv (processing_result_note oos stress (some id) reason more) c v =
    notify_fault-Inv id reason c v
serve-Inv (processing_result_note oos stress none reason more) c v =
    finish_wafer-Inv oos stress more c v
serve-Inv (fault_note id reason) c v = notify_fault-Inv id reason c v
serve-Inv stage_stopped_note c v = notify_stage_stopped-Inv c v

run-Inv : (rs : List Request) (c : Controller) → Inv c → Inv (run rs c)
unfolding run
run-Inv [] c v = v
run-Inv (r ∷ rs) c v = run-Inv rs (serve r c).0 (serve-Inv r c v)

new-Inv : Inv new
unfolding observed
new-Inv = record { mirrored = refl; flagged = refl; heard = refl }

-- The same after any history of requests to a new controller.
pub run-new-Inv : (rs : List Request) → Inv (run rs new)
run-new-Inv rs = run-Inv rs new new-Inv
