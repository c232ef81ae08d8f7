-- ===== src/Hsms/Session/Receive.antt =====
-- Session::on_bytes and Session::handle_frame of src/secsgem/hsms/session.cpp.
use semiconductor_metrology.Base.{
  Result, ℕ, ◌%◌, true, false, not, List, [], ◌∷◌, ◌++◌, none, some, ok, err, ◌==◌, ◌&&◌,
  if◌then◌else◌, join,
}
use semiconductor_metrology.Secs2.BigEndian.{Bytes}
use semiconductor_metrology.Hsms.Frame.{
  SType, data_message, select_req, select_rsp, deselect_req, deselect_rsp, linktest_req,
  linktest_rsp, reject_req, separate_req, Frame, function, stype_from_byte,
}
use semiconductor_metrology.Hsms.FrameDecoder.{feed, has_partial}
use semiconductor_metrology.Hsms.Connection.{
  not_connected, not_selected, selected, select, deselect, same_state,
}
use semiconductor_metrology.Hsms.Timer.{start}
use semiconductor_metrology.Hsms.Session.{
  Session, SessionOutput, no_output, is_open, forget, awaits, fire, close_connection, send_control,
  reject, reject_stype_not_supported, reject_ptype_not_supported, reject_transaction_not_open,
  reject_entity_not_selected, select_ok, select_already_active, deselect_ok, deselect_not_selected,
}

-- case SType::kData, while selected: an even function number answers an open request.
unfoldable pub deliver : Frame → Session → SessionOutput → Session × SessionOutput
unfolding function
deliver frame s out =
    let system = frame.header.system_bytes in
    let answers = function frame.header % 2 == 0 && is_open system s.transactions in
    let reply = if answers then some system else none in
    let left = if answers then forget system s.transactions else s.transactions in
    (
      record s { transactions = left },
      record out {
        deliveries = out.deliveries ++ (record { frame = frame; reply_to = reply } ∷ []);
      },
    )

-- The peer answered or refused the pending Linktest.req.
abbrev pub linktest_done : Session → Session
linktest_done s = record s { pending_linktest = none; t6 = none }

unfoldable pub on_select : ℕ → Session → SessionOutput → Session × SessionOutput
on_select system s out =
    if same_state s.fsm not_selected
    then (record (fire select s) { t7 = none }, send_control select_rsp system 0 select_ok out)
    else (s, send_control select_rsp system 0 select_already_active out)

unfoldable pub on_deselect : ℕ → ℕ → Session → SessionOutput → Session × SessionOutput
on_deselect now system s out =
    if same_state s.fsm selected
    then (
      record (fire deselect s) { transactions = []; t7 = start now s.config.t7 },
      send_control deselect_rsp system 0 deselect_ok out,
    )
    else (s, send_control deselect_rsp system 0 deselect_not_selected out)

-- The switch on the SType.
unfoldable pub dispatch : ℕ → SType → Frame → Session → SessionOutput → Session × SessionOutput
dispatch now data_message frame s out =
    if not (same_state s.fsm selected)
    then (s, reject frame reject_entity_not_selected out)
    else deliver frame s out
dispatch now select_req frame s out = on_select frame.header.system_bytes s out
dispatch now deselect_req frame s out = on_deselect now frame.header.system_bytes s out
dispatch now linktest_req frame s out =
    (s, send_control linktest_rsp frame.header.system_bytes 0 0 out)
dispatch now linktest_rsp frame s out =
    if awaits s.pending_linktest frame.header.system_bytes
    then (linktest_done s, out)
    else (s, reject frame reject_transaction_not_open out)
dispatch now select_rsp frame s out = (s, reject frame reject_transaction_not_open out)
dispatch now deselect_rsp frame s out = (s, reject frame reject_transaction_not_open out)
dispatch now reject_req frame s out =
    let system = frame.header.system_bytes in
    let left = if awaits s.pending_linktest system then linktest_done s else s in
    (record left { transactions = forget system s.transactions }, out)
dispatch now separate_req frame s out = close_connection "Separate.req received" s out

unfoldable pub handle_frame : ℕ → Frame → Session → SessionOutput → Session × SessionOutput
handle_frame now frame s out =
    if not (frame.header.ptype == 0)
    then (s, reject frame reject_ptype_not_supported out)
    else elim (stype_from_byte frame.header.stype) [
      | none ↦ (s, reject frame reject_stype_not_supported out)
      | some stype ↦ dispatch now stype frame s out
    ]

-- The loop over the frames of a read; it ends with the connection.
unfoldable pub handle_frames : ℕ → List Frame → Session → SessionOutput → Session × SessionOutput
handle_frames now [] s out = (s, out)
handle_frames now (frame ∷ rest) s out =
    let (s', out') = handle_frame now frame s out in
    elim out'.close [ true ↦ (s', out') | false ↦ handle_frames now rest s' out' ]

-- T8 runs only while a frame is unfinished.
abbrev pub watch_frame : ℕ → Session → Session
watch_frame now s = record s { t8 = if has_partial s.decoder then start now s.config.t8 else none }

-- What follows decoder_.feed, from what it returned.
unfoldable pub handle_read : ℕ → Result (List Frame) → Session → Session × SessionOutput
handle_read now (err e) s = close_connection (join "framing error: " e.message) s no_output
handle_read now (ok frames) s =
    let (s', out) = handle_frames now frames s no_output in
    (if out.close then s' else watch_frame now s', out)

unfoldable pub on_bytes : ℕ → Bytes → Session → Session × SessionOutput
on_bytes now bytes s =
    if same_state s.fsm not_connected
    then (s, no_output)
    else let (decoder', fed) = feed s.decoder bytes in
      handle_read now fed (record s { last_activity = now; decoder = decoder' })
