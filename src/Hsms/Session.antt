-- ===== src/Hsms/Session.antt =====
-- The HSMS session (include/ssim/secsgem/hsms/session.hpp, src/secsgem/hsms/session.cpp): its state,
-- its output, and the parts that its operations share. The operations are in the children: Receive,
-- Send and Tick. What an operation adds to its SessionOutput stands at the end of what is there.
pub mod Receive
pub mod Send
pub mod Tick
pub mod Invariant
pub mod Replies
pub mod Exchange
pub mod Answers
pub mod Deadlines
use semiconductor_metrology.Base.{
  ℕ, String, Bool, true, false, List, [], ◌∷◌, ◌++◌, Option, none, some, ◌==◌, ◌||◌, not, ltb,
  has_value, if◌then◌else◌, value_or,
}
use semiconductor_metrology.Secs2.BigEndian.{Bytes}
use semiconductor_metrology.Hsms.Frame.{
  SType, Frame, make_control_frame, encode_frame, stype_code, reject_req,
}
use semiconductor_metrology.Hsms.FrameDecoder.{FrameDecoder}
use semiconductor_metrology.Hsms.Connection.{
  ConnectionState, ConnectionTrigger, connect, disconnect, not_connected,
}
use semiconductor_metrology.Hsms.Timer.{Timer, start}

-- Codes of Reject.req, Select.rsp and Deselect.rsp, and of the errors of sending.
abbrev pub reject_stype_not_supported : ℕ
reject_stype_not_supported = 1

abbrev pub reject_ptype_not_supported : ℕ
reject_ptype_not_supported = 2

abbrev pub reject_transaction_not_open : ℕ
reject_transaction_not_open = 3

abbrev pub reject_entity_not_selected : ℕ
reject_entity_not_selected = 4

abbrev pub select_ok : ℕ
select_ok = 0

abbrev pub select_already_active : ℕ
select_already_active = 1

abbrev pub deselect_ok : ℕ
deselect_ok = 0

abbrev pub deselect_not_selected : ℕ
deselect_not_selected = 1

abbrev pub err_not_selected : ℕ
err_not_selected = 410

abbrev pub err_too_many_transactions : ℕ
err_too_many_transactions = 411

abbrev pub err_message_too_large : ℕ
err_message_too_large = 412

pub record SessionConfig : Type 0 where
  pub t3 : ℕ
  pub t6 : ℕ
  pub t7 : ℕ
  pub t8 : ℕ
  pub linktest_interval : ℕ
  pub max_frame_bytes : ℕ
  pub max_open_transactions : ℕ
  pub device_id : ℕ
  pub first_system_bytes : ℕ

pub record Delivery : Type 0 where
  pub frame : Frame
  pub reply_to : Option ℕ

pub record SessionOutput : Type 0 where
  pub to_send : List Bytes
  pub deliveries : List Delivery
  pub timed_out : List ℕ
  pub close : Bool
  pub close_reason : String

abbrev pub no_output : SessionOutput
no_output = record {
  to_send = [];
  deliveries = [];
  timed_out = [];
  close = false;
  close_reason = "";
}

-- System bytes of the open requests, with the T3 deadline of each: the std::map in its order.
abbrev pub Transactions : Type 0
Transactions = List (ℕ × ℕ)

-- std::map::count, as a test, std::map::erase, and the assignment at a key.
unfoldable pub is_open : ℕ → Transactions → Bool
is_open system [] = false
is_open system ((k, deadline) ∷ rest) = k == system || is_open system rest

unfoldable pub forget : ℕ → Transactions → Transactions
forget system [] = []
forget system ((k, deadline) ∷ rest) =
    if k == system then rest else (k, deadline) ∷ forget system rest

unfoldable pub open_at : ℕ → ℕ → Transactions → Transactions
open_at system deadline [] = (system, deadline) ∷ []
open_at system deadline ((k, d) ∷ rest) =
    if ltb system k
    then (system, deadline) ∷ (k, d) ∷ rest
    else if k == system
    then (system, deadline) ∷ rest
    else (k, d) ∷ open_at system deadline rest

pub record Session : Type 0 where
  pub config : SessionConfig
  pub fsm : ConnectionState
  pub decoder : FrameDecoder
  pub t7 : Timer
  pub t8 : Timer
  pub t6 : Timer
  pub last_activity : ℕ
  pub pending_linktest : Option ℕ
  pub transactions : Transactions
  pub next_system_bytes : ℕ

abbrev pub new : SessionConfig → Session
new c = record {
  config = c;
  fsm = not_connected;
  decoder = semiconductor_metrology.Hsms.FrameDecoder.new c.max_frame_bytes;
  t7 = none;
  t8 = none;
  t6 = none;
  last_activity = 0;
  pending_linktest = none;
  transactions = [];
  next_system_bytes = c.first_system_bytes;
}

-- `pending_linktest_ && *pending_linktest_ == system`
unfoldable pub awaits : Option ℕ → ℕ → Bool
awaits none system = false
awaits (some p) system = p == system

unfoldable pub reset_link_state : Session → Session
reset_link_state s = record s {
  t7 = none;
  t8 = none;
  t6 = none;
  pending_linktest = none;
  transactions = [];
  decoder = semiconductor_metrology.Hsms.FrameDecoder.new s.config.max_frame_bytes;
}

-- fsm_.apply: the session after it, and whether the trigger was accepted.
unfoldable pub fire : ConnectionTrigger → Session → Session
fire trigger s = record s { fsm = (semiconductor_metrology.Hsms.Connection.apply trigger s.fsm).0 }

unfoldable pub accepts : ConnectionTrigger → Session → Bool
accepts trigger s = has_value (semiconductor_metrology.Hsms.Connection.apply trigger s.fsm).1

unfoldable pub on_disconnect : Session → Session
on_disconnect s = if accepts disconnect s then reset_link_state (fire disconnect s) else s

unfoldable pub on_connect : ℕ → Session → Session × SessionOutput
on_connect now s = if not (accepts connect s) then (s, no_output) else (
  record (reset_link_state (fire connect s)) { last_activity = now; t7 = start now s.config.t7 },
  no_output,
)

unfoldable pub close_connection : String → Session → SessionOutput → Session × SessionOutput
close_connection reason s out =
    (on_disconnect s, record out { close = true; close_reason = reason })

-- A control frame has no body, so encoding it gives a value. The arguments are stype,
-- system_bytes, byte2, byte3.
unfoldable pub send_control : SType → ℕ → ℕ → ℕ → SessionOutput → SessionOutput
send_control stype system byte2 byte3 out = record out {
  to_send =
      out.to_send
      ++ (value_or [] (encode_frame (make_control_frame stype system byte2 byte3)) ∷ []);
}

unfoldable pub reject : Frame → ℕ → SessionOutput → SessionOutput
reject offending reason out =
    let what =
      if reason == reject_ptype_not_supported
      then offending.header.ptype
      else offending.header.stype in
    send_control reject_req offending.header.system_bytes what reason out
