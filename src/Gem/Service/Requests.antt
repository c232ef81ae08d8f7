-- ===== src/Gem/Service/Requests.antt =====
-- What the host sends (src/secsgem/gem/gem_service.cpp): status requests, going offline and online,
-- the dispatch of a message, and GemService::on_data. A handler parses what the factory's check has
-- passed; Result::value throws where there is none, so a handler returns a Result here.
pub mod Answered
use semiconductor_metrology.Base.{
  ℕ, Bool, true, false, not, List, [], ◌∷◌, Option, none, some, Result, ok, err, has_value, length,
  map, ◌>>=◌, ◌&&◌, ◌==◌, ◌%◌, ◌^◌, ltb, if◌then◌else◌,
}
use semiconductor_metrology.Secs2.Item.{Item, array, u1, u2, u4, f4}
use semiconductor_metrology.Secs2.Message.{Message}
use semiconductor_metrology.Secs2.MessageFactory.{
  Validation, valid, unknown_stream, unknown_function, illegal_data, check,
}
use semiconductor_metrology.Hsms.Frame.{Frame, Header}
use semiconductor_metrology.Hsms.DataMessage.{to_message}
use semiconductor_metrology.Hsms.Session.{Delivery}
use semiconductor_metrology.Core.Alarms.{active_count}
use semiconductor_metrology.Core.Controller.{offline, is_offline, secs_gem}
use semiconductor_metrology.Core.MachineApi.{WaferResultReady, set_control_mode, snapshot}
use semiconductor_metrology.Gem.Identifiers.{
  svid_control_state, svid_process_state, svid_current_wafer_id, svid_current_slot,
  svid_scan_progress_percent, svid_last_stress_mpa, svid_last_curvature, svid_last_fit_rms_um,
  svid_active_alarm_count, svid_software_revision, svid_uptime_seconds, svid_wafers_processed,
  status_variables, commack_accepted, oflack_ok, onlack_accepted, onlack_not_allowed,
  onlack_already_online,
}
use semiconductor_metrology.Gem.Messages.{list_of, ascii_item, u4_item}
use semiconductor_metrology.Gem.Messages.Builders.{
  make_s1f2, make_s1f4, make_s1f14, make_s1f16, make_s1f18, parse_s1f3,
}
use semiconductor_metrology.Gem.Messages.Catalogues.{register_equipment_catalogue}
use semiconductor_metrology.Gem.Service.{
  GemService, Surroundings, CommState, communicating, control_code, process_code, reply, send_s9,
  erase_request,
}
use semiconductor_metrology.Gem.Service.Commands.{handle_remote_command}

-- Item::u1 and Item::f4, of one value.
abbrev pub u1_item : ℕ → Item
u1_item v = array u1 (v ∷ [])

abbrev pub f4_item : ℕ → Item
f4_item v = array f4 (v ∷ [])

-- A field of the last result as a float, or 0.0f.
unfoldable pub last_value : Surroundings → (WaferResultReady → ℕ) → Option WaferResultReady → ℕ
last_value w field none = 0
last_value w field (some r) = w.to_float (field r)

unfoldable pub status_value : Surroundings → GemService → ℕ → Item
unfolding last_value active_count
status_value w g svid =
    let snap = snapshot g.api in
    if svid == svid_control_state
    then u1_item (control_code snap.control_mode)
    else if svid == svid_process_state
    then u1_item (process_code snap.process_state)
    else if svid == svid_current_wafer_id
    then ascii_item snap.wafer_id
    else if svid == svid_current_slot
    then u1_item 1
    else if svid == svid_scan_progress_percent
    then f4_item (w.to_float snap.progress_percent)
    else if svid == svid_last_stress_mpa
    then f4_item (last_value w (λ r. r.stress_mpa) snap.last_result)
    else if svid == svid_last_curvature
    then f4_item (last_value w (λ r. r.curvature_per_m) snap.last_result)
    else if svid == svid_last_fit_rms_um
    then f4_item (last_value w (λ r. r.fit_rms_um) snap.last_result)
    else if svid == svid_active_alarm_count
    then array u2 (active_count g.api.controller.alarms % 2 ^ 16 ∷ [])
    else if svid == svid_software_revision
    then ascii_item g.config.identity.softrev
    else if svid == svid_uptime_seconds
    then u4_item (w.uptime_seconds % 2 ^ 32)
    else if svid == svid_wafers_processed
    then u4_item g.wafers_processed
    else list_of []

-- An empty request asks for all status variables.
unfoldable pub requested : List ℕ → List ℕ
unfolding status_variables
requested [] = map (λ (v : ℕ × _). v.0) status_variables
requested (svid ∷ svids) = svid ∷ svids

unfoldable pub handle_status_request :
    Surroundings → Frame → Message → GemService → Result GemService
unfolding requested reply
handle_status_request w frame message g = do
  svids ← parse_s1f3 message
  ok (reply frame (make_s1f4 (map (status_value w g) (requested svids))) g)

unfoldable pub handle_offline_request : Frame → GemService → GemService
unfolding reply
handle_offline_request frame g =
    let (m, result) = set_control_mode offline secs_gem g.api in
    reply frame (make_s1f16 oflack_ok) (record g { api = m })

unfoldable pub handle_online_request : Frame → GemService → GemService
unfolding reply
handle_online_request frame g =
    if not g.config.allow_host_online
    then reply frame (make_s1f18 onlack_not_allowed) g
    else if not (is_offline (snapshot g.api).control_mode)
    then reply frame (make_s1f18 onlack_already_online) g
    else let (m, result) = set_control_mode g.preferred_online_mode secs_gem g.api in
      reply frame (make_s1f18 (if has_value result then onlack_accepted else onlack_not_allowed))
        (record g { api = m })

-- key == std::make_pair(stream, function)
unfoldable pub is_key : ℕ → ℕ → Message → Bool
is_key stream function message = message.stream == stream && message.function == function

unfoldable pub handle_message : Surroundings → Frame → Message → GemService → Result GemService
unfolding is_key reply handle_status_request handle_offline_request handle_online_request
    handle_remote_command
handle_message w frame message g =
    if is_key 1 1 message
    then ok (reply frame (make_s1f2 g.config.identity) g)
    else if is_key 1 13 message
    then ok (
        reply frame (make_s1f14 commack_accepted g.config.identity)
          (record g { comm = communicating }))
    else if is_key 1 3 message
    then handle_status_request w frame message g
    else if is_key 1 15 message
    then ok (handle_offline_request frame g)
    else if is_key 1 17 message
    then ok (handle_online_request frame g)
    else if is_key 2 41 message
    then handle_remote_command frame message g
    else ok g

-- The switch over the factory's verdict.
unfoldable pub validated :
    Surroundings → Frame → Message → Validation → GemService → Result GemService
unfolding handle_message send_s9
validated w frame message valid g = handle_message w frame message g
validated w frame message unknown_stream g = ok (send_s9 3 frame.header g)
validated w frame message unknown_function g = ok (send_s9 5 frame.header g)
validated w frame message illegal_data g = ok (send_s9 7 frame.header g)

unfoldable pub decoded : Surroundings → Frame → Result Message → GemService → Result GemService
unfolding validated send_s9 check register_equipment_catalogue
decoded w frame (err _) g = ok (send_s9 7 frame.header g)
decoded w frame (ok message) g =
    validated w frame message (check message register_equipment_catalogue) g

unfoldable pub on_primary : Surroundings → Frame → GemService → Result GemService
unfolding decoded send_s9 to_message
on_primary w frame g =
    if not (frame.header.session_id == g.config.device_id)
    then ok (send_s9 1 frame.header g)
    else if ltb g.config.max_body_bytes (length frame.body)
    then ok (send_s9 11 frame.header g)
    else decoded w frame (to_message frame) g

unfoldable pub on_data : Surroundings → Delivery → GemService → Result GemService
unfolding on_primary erase_request
on_data w delivery g = elim delivery.reply_to [
  | some system ↦ ok (record g { open_requests = erase_request system g.open_requests })
  | none ↦ on_primary w delivery.frame g
]
