-- ===== src/Gem/Service/Events.antt =====
-- What the machine reports (src/secsgem/gem/gem_service.cpp): the tasks that the subscriptions of the
-- event bus post to the I/O thread, and the calls that the HSMS session makes besides on_data.
pub mod Numbered
use semiconductor_metrology.Base.{
  ℕ, Bool, true, false, List, [], ◌∷◌, Option, none, some, ◌+◌, ◌%◌, ◌^◌, if◌then◌else◌, Text,
}
use semiconductor_metrology.Secs2.Item.{Item, array, boolean}
use semiconductor_metrology.Hsms.Connection.{ConnectionState, selected, not_selected, not_connected}
use semiconductor_metrology.Core.Controller.{ControlMode, is_offline}
use semiconductor_metrology.Core.Process.{ProcessState}
use semiconductor_metrology.Core.MachineApi.{WaferResultReady, snapshot}
use semiconductor_metrology.Gem.Identifiers.{
  ceid_control_state_changed, ceid_process_state_changed, ceid_wafer_scan_started,
  ceid_wafer_scan_complete, ceid_wafer_out_of_spec, ceid_run_aborted, rptid_wafer_result,
  rptid_states, rptid_scan_started, alcd_set_bit, alarm_category,
}
use semiconductor_metrology.Gem.Messages.{Report, ascii_item}
use semiconductor_metrology.Gem.Service.{
  GemService, Surroundings, not_communicating, control_code, process_code, send_event, send_alarm,
  send_s9, find_request, erase_request,
}
use semiconductor_metrology.Gem.Service.Requests.{u1_item, f4_item}

abbrev pub states_report : ControlMode → ProcessState → List Report
states_report control process =
    record {
      rptid = rptid_states;
      values = u1_item (control_code control) ∷ u1_item (process_code process) ∷ [];
    }
    ∷ []

unfoldable pub on_process_state_changed : ProcessState → GemService → GemService
unfolding send_event
on_process_state_changed to g =
    send_event ceid_process_state_changed (states_report (snapshot g.api).control_mode to) g

unfoldable pub on_control_state_changed : ControlMode → GemService → GemService
unfolding send_event
on_control_state_changed to g =
    send_event ceid_control_state_changed (states_report to (snapshot g.api).process_state)
      (if is_offline to then g else record g { preferred_online_mode = to })

-- The slot and the number of lines are cut to a byte.
unfoldable pub on_scan_started : Text → ℕ → GemService → GemService
unfolding send_event
on_scan_started wafer_id slot g =
    send_event ceid_wafer_scan_started
      (record {
        rptid = rptid_scan_started;
        values =
            ascii_item wafer_id ∷ u1_item (slot % 256) ∷ u1_item (g.config.num_lines % 256) ∷ [];
      }
        ∷ [])
      g

abbrev pub result_report : Surroundings → WaferResultReady → List Report
result_report w r =
    record {
      rptid = rptid_wafer_result;
      values =
          ascii_item r.wafer_id
          ∷ u1_item (r.slot % 256)
          ∷ f4_item (w.to_float r.stress_mpa)
          ∷ f4_item (w.to_float r.stress_unc_mpa)
          ∷ f4_item (w.to_float r.curvature_per_m)
          ∷ f4_item (w.to_float r.fit_rms_um)
          ∷ array boolean ((if r.out_of_spec then 1 else 0) ∷ [])
          ∷ [];
    }
    ∷ []

-- wafers_processed_ is a std::uint32_t.
unfoldable pub on_result : Surroundings → WaferResultReady → GemService → GemService
unfolding send_event
on_result w r g =
    let g =
      send_event ceid_wafer_scan_complete (result_report w r)
        (record g { wafers_processed = (g.wafers_processed + 1) % 2 ^ 32 }) in
    if r.out_of_spec then send_event ceid_wafer_out_of_spec (result_report w r) g else g

unfoldable pub on_run_aborted : GemService → GemService
unfolding send_event
on_run_aborted g =
    let snap = snapshot g.api in
    send_event ceid_run_aborted (states_report snap.control_mode snap.process_state) g

-- The bits of the two constants do not meet, so | is +.
unfoldable pub on_alarm : Bool → ℕ → Text → GemService → GemService
unfolding send_alarm
on_alarm set alid text =
    send_alarm ((if set then alcd_set_bit else 0) + alarm_category) (alid % 2 ^ 32) text

unfoldable pub on_session_state : ConnectionState → GemService → GemService
on_session_state selected g = g
on_session_state not_selected g = record g { comm = not_communicating; open_requests = [] }
on_session_state not_connected g = record g { comm = not_communicating; open_requests = [] }

unfoldable pub on_transaction_timeout : ℕ → GemService → GemService
unfolding send_s9 find_request erase_request
on_transaction_timeout system_bytes g = elim (find_request system_bytes g.open_requests) [
  | none ↦ g
  | some sent ↦
      send_s9 9 sent (record g { open_requests = erase_request system_bytes g.open_requests })
]
