-- ===== src/Examples/Session.antt =====
-- The theorems about src/secsgem/hsms/session.cpp at concrete inputs.
use semiconductor_metrology.Base.{
  ℕ, ◌+◌, ◌%◌, ◌^◌, ◌<◌, ◌≡◌, ◌≢◌, refl, true, false, List, [], ◌∷◌, none, some, arith, value_or,
  ltb, ◌&&◌, ok,
}
use semiconductor_metrology.Secs2.BigEndian.{Bytes}
use semiconductor_metrology.Hsms.Frame.{
  select_req, select_rsp, make_control_frame, make_data_frame, encode_frame, Frame, header_bytes,
  put_be16, put_be32, stype_code, function, linktest_req, stype_from_byte,
}
use semiconductor_metrology.Hsms.Connection.{ConnectionState, selected, not_selected, same_state}
use semiconductor_metrology.Secs2.Message.{Message}
use semiconductor_metrology.Hsms.Timer.{expired}
use semiconductor_metrology.Hsms.Session.{
  SessionConfig, Session, SessionOutput, new, no_output, is_open, open_at, forget, awaits,
  send_control,
}
use semiconductor_metrology.Hsms.Session.Receive.{
  handle_frame, handle_frames, handle_read, on_bytes, dispatch,
}
use semiconductor_metrology.Hsms.FrameDecoder.{
  feed, extract, next_frame, load_be32, load_be16, byte_at, frame_at, has_partial,
}
use semiconductor_metrology.Hsms.Session.Send.{
  allocate_system_bytes, search, is_taken, queue_data, request_with, send_request,
}
use semiconductor_metrology.Hsms.Session.Send.Fresh.{allocate_system_bytes-fresh}
use semiconductor_metrology.Hsms.Session.Tick.{expire, is_some, is_idle, linktest, on_tick}
use semiconductor_metrology.Hsms.Session.Invariant.{IsWellFormed}
use semiconductor_metrology.Hsms.Session.Invariant.Totality.{Returns}
use semiconductor_metrology.Hsms.Session.Invariant.Run.{
  Call, connected, received, requested, ticked, run, perform, run-new-IsWellFormed,
}
use semiconductor_metrology.Hsms.Session.Replies.{handle_frame-unselected}
use semiconductor_metrology.Hsms.Session.Exchange.{
  read_unrelated, all_unrelated, unrelated, unrelated_type,
}
use semiconductor_metrology.Hsms.Session.Exchange.Reply.{
  leaves_open, all_leave_open, send_request-reply,
}
use semiconductor_metrology.Hsms.Session.Answers.{response, status, outcome, handle_frame-answers}
use semiconductor_metrology.Hsms.Session.Deadlines.{
  awaits_until, mentions, is_late, on_tick-deadlines,
}

abbrev config : SessionConfig
config = record {
  t3 = 45000;
  t6 = 5000;
  t7 = 10000;
  t8 = 5000;
  linktest_interval = 60000;
  max_frame_bytes = 1000;
  max_open_transactions = 2;
  device_id = 0;
  first_system_bytes = 0xffff_ffff;
}

-- S1F1 with a reply expected.
abbrev are_you_there : Message
are_you_there = record { stream = 1; function = 1; w_bit = true; body = none }

-- Connect, select, send two requests, and wait.
abbrev calls : List Call
calls =
    connected 0
    ∷ received 10 (value_or [] (encode_frame (make_control_frame select_req 7 0 0)))
    ∷ requested 20 are_you_there
    ∷ requested 30 are_you_there
    ∷ ticked 70000
    ∷ []

run-new-IsWellFormed_example : Returns (IsWellFormed config) (run calls (new config))
run-new-IsWellFormed_example = run-new-IsWellFormed config calls (omega arith) (omega arith)

allocate_system_bytes-fresh_example :
    (c : ℕ) × (allocate_system_bytes (new config)
      ≡ some (c, record (new config) { next_system_bytes = (c + 1) % 2 ^ 32 }))
    × (c < 2 ^ 32)
    × (c ≢ 0)
    × (is_open c [] ≡ false)
    × (awaits none c ≡ false)
allocate_system_bytes-fresh_example =
    allocate_system_bytes-fresh (new config) (omega arith) (omega arith)

-- A session in its first state but for the connection.
abbrev at_state : ConnectionState → Session
at_state state = record (new config) { fsm = state }

-- The data frame S1F2 with these system bytes, without a body.
abbrev on_line : ℕ → Frame
on_line system = make_data_frame 0 1 2 false system []

-- What the first request leaves.
abbrev after_request : Session
after_request = record (at_state selected) {
  transactions = (0xffff_ffff, 45020) ∷ [];
  last_activity = 20;
  next_system_bytes = 0;
}

abbrev request_output : SessionOutput
request_output = record no_output {
  to_send = value_or [] (encode_frame (make_data_frame 0 1 1 true 0xffff_ffff [])) ∷ [];
}

-- A tick, and a Linktest.req from the host.
abbrev meanwhile : List Call
meanwhile =
    ticked 5000
    ∷ received 6000 (value_or [] (encode_frame (make_control_frame linktest_req 9 0 0)))
    ∷ []

abbrev after_meanwhile : Session
after_meanwhile = record after_request { last_activity = 6000 }

send_request-reply_example :
    ((handle_frame 7000 (on_line 0xffff_ffff) after_meanwhile no_output).1.deliveries
      ≡ record { frame = on_line 0xffff_ffff; reply_to = some 0xffff_ffff } ∷ [])
    × ((handle_frame 7000 (on_line 0xffff_ffff) after_meanwhile no_output).0.transactions
        ≡ forget 0xffff_ffff after_meanwhile.transactions)
    × (is_open 0xffff_ffff
          (handle_frame 7000 (on_line 0xffff_ffff) after_meanwhile no_output).0.transactions
        ≡ false)
    × (is_open 0xffff_ffff [] ≡ false)
unfolding send_request request_with allocate_system_bytes search is_taken is_open awaits queue_data
    open_at same_state make_data_frame encode_frame header_bytes put_be16 put_be32 stype_code
    function make_control_frame all_leave_open leaves_open read_unrelated all_unrelated unrelated
    unrelated_type run perform on_tick expire expired is_some linktest is_idle on_bytes handle_read
    handle_frames handle_frame dispatch send_control stype_from_byte feed extract next_frame
    load_be32 load_be16 byte_at frame_at has_partial
send_request-reply_example =
    send_request-reply 20 are_you_there (at_state selected) after_request after_meanwhile no_output
      request_output no_output 0xffff_ffff meanwhile 7000 (on_line 0xffff_ffff) (omega arith) refl
      refl refl refl refl refl refl refl

handle_frame-unselected_example :
    (handle_frame 30 (on_line 7) (at_state not_selected) no_output).1.deliveries ≡ []
unfolding same_state
handle_frame-unselected_example =
    handle_frame-unselected 30 (on_line 7) (at_state not_selected) no_output refl

handle_frame-answers_example :
    (wire : Bytes) × (encode_frame
        (make_control_frame select_rsp 7 0 (status select_req not_selected))
      ≡ ok wire)
    × ((handle_frame 5
          (make_control_frame select_req 7 0 0)
          (at_state not_selected)
          no_output).1.to_send
        ≡ wire ∷ [])
    × ((handle_frame 5
          (make_control_frame select_req 7 0 0)
          (at_state not_selected)
          no_output).0.fsm
        ≡ outcome select_req not_selected)
unfolding response make_control_frame stype_code
handle_frame-answers_example =
    handle_frame-answers 5 select_req select_rsp (make_control_frame select_req 7 0 0)
      (at_state not_selected) no_output refl refl refl

-- After T3.
abbrev after_timeout : Session
after_timeout = record after_request { transactions = [] }

on_tick-deadlines_example :
    (awaits_until 0xffff_ffff 45020 []
      ≡ (awaits_until 0xffff_ffff 45020 after_request.transactions && ltb 50000 45020))
    × (mentions 0xffff_ffff (0xffff_ffff ∷ [])
        ≡ is_late 0xffff_ffff 50000 after_request.transactions)
    × (1 + 0 ≡ 1)
unfolding on_tick expire expired is_some is_idle linktest same_state
on_tick-deadlines_example =
    on_tick-deadlines 50000 after_request after_timeout
      (record no_output { timed_out = 0xffff_ffff ∷ [] }) 0xffff_ffff 45020 refl refl refl
