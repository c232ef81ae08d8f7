-- ===== src/Hsms/Session/Answers.antt =====
-- The answers to control requests in src/secsgem/hsms/session.cpp.
use semiconductor_metrology.Base.{
  ℕ, ◌≡◌, refl, ap, ◌∙◌, [], ◌∷◌, ◌++◌, Option, none, some, ok, arith, value_or,
}
use semiconductor_metrology.Secs2.BigEndian.{Bytes}
use semiconductor_metrology.Hsms.Frame.{
  SType, data_message, select_req, select_rsp, deselect_req, deselect_rsp, linktest_req,
  linktest_rsp, reject_req, separate_req, Frame, stype_from_byte, stype_code, encode_frame,
  make_control_frame,
}
use semiconductor_metrology.Hsms.Connection.{
  ConnectionState, not_selected, selected, same_state, legal, next, apply,
}
use semiconductor_metrology.Hsms.Session.{Session, SessionOutput, send_control, fire}
use semiconductor_metrology.Hsms.Session.Receive.{handle_frame, dispatch, on_select, on_deselect}

-- The response that a request of the host asks for.
unfoldable pub response : SType → Option SType
response select_req = some select_rsp
response deselect_req = some deselect_rsp
response linktest_req = some linktest_rsp
response _ = none

-- The status that grants a request, and the one that denies it.
unfoldable pub status : SType → ConnectionState → ℕ
status select_req not_selected = 0
status select_req _ = 1
status deselect_req selected = 0
status deselect_req _ = 1
status _ _ = 0

-- The state that the request leaves the connection in.
unfoldable pub outcome : SType → ConnectionState → ConnectionState
outcome select_req not_selected = selected
outcome deselect_req selected = not_selected
outcome _ state = state

handle_frame-known :
    (now : ℕ) (stype : SType) (frame : Frame) (s : Session) (out : SessionOutput)
    → frame.header.ptype ≡ 0
    → frame.header.stype ≡ stype_code stype
    → handle_frame now frame s out ≡ dispatch now stype frame s out
unfolding handle_frame stype_from_byte stype_code
handle_frame-known now data_message frame s out hp hs = ground arith
handle_frame-known now select_req frame s out hp hs = ground arith
handle_frame-known now select_rsp frame s out hp hs = ground arith
handle_frame-known now deselect_req frame s out hp hs = ground arith
handle_frame-known now deselect_rsp frame s out hp hs = ground arith
handle_frame-known now linktest_req frame s out hp hs = ground arith
handle_frame-known now linktest_rsp frame s out hp hs = ground arith
handle_frame-known now reject_req frame s out hp hs = ground arith
handle_frame-known now separate_req frame s out hp hs = ground arith

encode_frame-control :
    (stype : SType) (system b2 b3 : ℕ)
    → (wire : Bytes) × (encode_frame (make_control_frame stype system b2 b3) ≡ ok wire)
unfolding encode_frame make_control_frame
encode_frame-control stype system b2 b3 = (_, refl)

send_control-to_send :
    (stype : SType) (system b2 b3 : ℕ) (out : SessionOutput) {wire : Bytes}
    → encode_frame (make_control_frame stype system b2 b3) ≡ ok wire
    → (send_control stype system b2 b3 out).to_send ≡ out.to_send ++ (wire ∷ [])
unfolding send_control
send_control-to_send stype system b2 b3 out h = ap (λ r. out.to_send ++ (value_or [] r ∷ [])) h

dispatch-answers :
    (now : ℕ) (request answer : SType) (frame : Frame) (s : Session) (out : SessionOutput)
    → response request ≡ some answer
    → ((dispatch now request frame s out).1
        ≡ send_control answer frame.header.system_bytes 0 (status request s.fsm) out)
      × ((dispatch now request frame s out).0.fsm ≡ outcome request s.fsm)
unfolding response status outcome dispatch on_select on_deselect fire apply legal next same_state
dispatch-answers now select_req answer frame s out h = ground arith
dispatch-answers now select_rsp answer frame s out h = ground arith
dispatch-answers now deselect_req answer frame s out h = ground arith
dispatch-answers now deselect_rsp answer frame s out h = ground arith
dispatch-answers now linktest_req answer frame s out h = ground arith
dispatch-answers now linktest_rsp answer frame s out h = ground arith
dispatch-answers now reject_req answer frame s out h = ground arith
dispatch-answers now separate_req answer frame s out h = ground arith
dispatch-answers now data_message answer frame s out h = ground arith

-- Every Select.req, Deselect.req and Linktest.req, in whatever state, is answered by exactly one
-- frame: its response, with its system bytes and the status 0 where the request is granted and 1
-- where it is denied. The connection changes its state exactly where a Select.req or Deselect.req is
-- granted.
pub handle_frame-answers :
    (now : ℕ) (request answer : SType) (frame : Frame) (s : Session) (out : SessionOutput)
    → response request ≡ some answer
    → frame.header.ptype ≡ 0
    → frame.header.stype ≡ stype_code request
    → (wire : Bytes) × (encode_frame
          (make_control_frame answer frame.header.system_bytes 0 (status request s.fsm))
        ≡ ok wire)
      × ((handle_frame now frame s out).1.to_send ≡ out.to_send ++ (wire ∷ []))
      × ((handle_frame now frame s out).0.fsm ≡ outcome request s.fsm)
handle_frame-answers now request answer frame s out h hp hs =
    let known = handle_frame-known now request frame s out hp hs in
    let answered = dispatch-answers now request answer frame s out h in
    let sent = encode_frame-control answer frame.header.system_bytes 0 (status request s.fsm) in
    (
      sent.0,
      sent.1,
      ap (λ r. r.1.to_send) known
          ∙ ap (λ o. o.to_send) answered.0
          ∙ send_control-to_send answer frame.header.system_bytes 0 (status request s.fsm) out
              sent.1,
      ap (λ r. r.0.fsm) known ∙ answered.1,
    )
