-- ===== src/Hsms/Session/Replies.antt =====
-- Requests and their replies in src/secsgem/hsms/session.cpp.
use semiconductor_metrology.Base.{
  ℕ, ◌+◌, ◌%◌, ◌^◌, ◌<◌, ◌≡◌, refl, true, false, [], ◌∷◌, ◌++◌, some, ok, length, arith,
  Option-cases, inl, inr,
}
use semiconductor_metrology.Hsms.Frame.{
  SType, data_message, select_req, select_rsp, deselect_req, deselect_rsp, linktest_req,
  linktest_rsp, reject_req, separate_req, Frame, function, stype_from_byte,
}
use semiconductor_metrology.Hsms.Connection.{selected, same_state}
use semiconductor_metrology.Secs2.Message.{Message}
use semiconductor_metrology.Hsms.Session.{
  Session, SessionOutput, is_open, forget, open_at, reject, send_control, close_connection,
}
use semiconductor_metrology.Hsms.Session.Receive.{
  handle_frame, dispatch, deliver, on_select, on_deselect,
}
use semiconductor_metrology.Hsms.Session.Invariant.Frames.{handle_frame-cases}
use semiconductor_metrology.Hsms.Session.Send.{
  send_request, request_with, allocate_system_bytes, search, is_taken,
}
use semiconductor_metrology.Hsms.Session.Send.Fresh.{search-fresh}

-- What a request that succeeds, with a reply expected, has done.
pub request_opens :
    (now : ℕ) (message : Message) (s : Session) (out : SessionOutput) (s' : Session)
    (out' : SessionOutput) (system : ℕ)
    → s.next_system_bytes < 2 ^ 32
    → message.w_bit ≡ true
    → send_request now message s out ≡ some (s', out', ok system)
    → (same_state s'.fsm selected ≡ true)
      × (is_open system s.transactions ≡ false)
      × (s'.transactions ≡ open_at system (now + s.config.t3) s.transactions)
unfolding send_request request_with allocate_system_bytes is_taken
request_opens now message s out s' out' system hn hw h =
    elim (Option-cases (search (length s.transactions + 3) (is_taken s) s.next_system_bytes)) [
      | inl e ↦ ground (arith, e)
      | inr (c, e) ↦ ground (
        arith,
        e,
        search-fresh (is_taken s) (length s.transactions + 3) s.next_system_bytes c hn e,
      )
    ]

-- An even data frame with the system bytes of an open request is delivered as its reply.
pub deliver-reply :
    (frame : Frame) (s : Session) (out : SessionOutput)
    → function frame.header % 2 ≡ 0
    → is_open frame.header.system_bytes s.transactions ≡ true
    → deliver frame s out ≡ (
      record s { transactions = forget frame.header.system_bytes s.transactions },
      record out {
        deliveries =
            out.deliveries
            ++ (record { frame = frame; reply_to = some frame.header.system_bytes } ∷ []);
      },
    )
unfolding deliver
deliver-reply frame s out even opened = rw (even, opened) refl

pub handle_frame-selected :
    (now : ℕ) (frame : Frame) (s : Session) (out : SessionOutput)
    → frame.header.ptype ≡ 0
    → frame.header.stype ≡ 0
    → same_state s.fsm selected ≡ true
    → handle_frame now frame s out ≡ deliver frame s out
unfolding handle_frame dispatch stype_from_byte
handle_frame-selected now frame s out hp hs sel = ground arith

dispatch-unselected :
    (now : ℕ) (stype : SType) (frame : Frame) (s : Session) (out : SessionOutput)
    → same_state s.fsm selected ≡ false
    → (dispatch now stype frame s out).1.deliveries ≡ out.deliveries
unfolding dispatch on_select on_deselect close_connection reject send_control
dispatch-unselected now data_message frame s out h = ground arith
dispatch-unselected now select_req frame s out h = ground arith
dispatch-unselected now select_rsp frame s out h = refl
dispatch-unselected now deselect_req frame s out h = ground arith
dispatch-unselected now deselect_rsp frame s out h = refl
dispatch-unselected now linktest_req frame s out h = refl
dispatch-unselected now linktest_rsp frame s out h = ground arith
dispatch-unselected now reject_req frame s out h = refl
dispatch-unselected now separate_req frame s out h = refl

-- A data frame is delivered only while the session is selected: otherwise nothing is delivered,
-- whatever the frame.
pub handle_frame-unselected :
    (now : ℕ) (frame : Frame) (s : Session) (out : SessionOutput)
    → same_state s.fsm selected ≡ false
    → (handle_frame now frame s out).1.deliveries ≡ out.deliveries
unfolding reject send_control
handle_frame-unselected now frame s out h =
    handle_frame-cases (λ r. r.1.deliveries ≡ out.deliveries) now frame s out (λ reason. refl)
      (λ t. dispatch-unselected now t frame s out h)
