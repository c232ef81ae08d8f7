-- ===== src/Hsms/Session/Invariant.antt =====
-- What holds of every session of src/secsgem/hsms/session.cpp between its calls.
pub mod Frames
pub mod Totality
pub mod Run
use semiconductor_metrology.Base.{
  ℕ, suc, ◌+◌, ◌%◌, ◌^◌, ◌≤◌, ◌<◌, ◌≡◌, refl, sym, ◌∙◌, Bool, true, false, not, List, [], ◌∷◌,
  Option, none, some, Result, ok, err, ◌==◌, if◌then◌else◌, length, arith, Bool-cases, inl, inr,
  String, ltb,
}
use semiconductor_metrology.Secs2.BigEndian.{Bytes}
use semiconductor_metrology.Hsms.Frame.{
  SType, data_message, select_req, select_rsp, deselect_req, deselect_rsp, linktest_req,
  linktest_rsp, reject_req, separate_req, Frame, stype_from_byte,
}
use semiconductor_metrology.Hsms.FrameDecoder.{FrameDecoder}
use semiconductor_metrology.Hsms.Connection.{
  not_connected, not_selected, selected, same_state, legal, next, apply,
}
use semiconductor_metrology.Hsms.Timer.{start}
use semiconductor_metrology.Secs2.Message.{Message}
use semiconductor_metrology.Hsms.Session.{
  SessionConfig, Session, SessionOutput, Transactions, new, on_connect, on_disconnect,
  close_connection, reset_link_state, fire, accepts, forget, is_open, open_at, awaits, reject,
  reject_ptype_not_supported, reject_stype_not_supported,
}
use semiconductor_metrology.Hsms.Session.Receive.{
  deliver, on_select, on_deselect, dispatch, handle_frame, handle_frames, on_bytes,
}
use semiconductor_metrology.Hsms.Session.Send.{
  send_request, request_with, allocate_system_bytes, queue_data,
}
use semiconductor_metrology.Hsms.Session.Send.Fresh.{allocate_system_bytes-fresh}
use semiconductor_metrology.Hsms.Session.Tick.{is_some, expire, is_idle, linktest, on_tick}

-- A session with this configuration: T7 runs exactly while it is not selected, T6 exactly while a
-- linktest is pending, requests are open only while it is selected and never too many, and without a
-- connection nothing runs, waits or is buffered.
pub record IsWellFormed (c : SessionConfig) (s : Session) : Type 0 where
  pub configured : s.config ≡ c
  pub t7_runs : is_some s.t7 ≡ same_state s.fsm not_selected
  pub t6_runs : is_some s.t6 ≡ is_some s.pending_linktest
  pub open_selected : same_state s.fsm selected ≡ false → s.transactions ≡ []
  pub bounded : length s.transactions ≤ c.max_open_transactions
  pub offline :
      same_state s.fsm not_connected ≡ true
      → (s.t8 ≡ none) × (s.pending_linktest ≡ none) × (s.decoder.buffer ≡ [])
  pub word : s.next_system_bytes < 2 ^ 32

module _ {c : SessionConfig} where
  pub new-IsWellFormed : c.first_system_bytes < 2 ^ 32 → IsWellFormed c (new c)
  unfolding same_state is_some
  new-IsWellFormed h = record {
    configured = refl;
    t7_runs = refl;
    t6_runs = refl;
    open_selected = λ e. refl;
    bounded = omega arith;
    offline = λ e. (refl, refl, refl);
    word = h;
  }

  pub on_disconnect-IsWellFormed :
      (s : Session) → IsWellFormed c s → IsWellFormed c (on_disconnect s)
  unfolding on_disconnect accepts fire reset_link_state apply legal next same_state is_some
  on_disconnect-IsWellFormed s w = ground arith

  pub on_connect-IsWellFormed :
      (now : ℕ) (s : Session) → IsWellFormed c s → IsWellFormed c (on_connect now s).0
  unfolding on_connect accepts fire reset_link_state apply legal next same_state is_some
  on_connect-IsWellFormed now s w = ground arith

  pub close_connection-IsWellFormed :
      (reason : String) (s : Session) (out : SessionOutput)
      → IsWellFormed c s
      → IsWellFormed c (close_connection reason s out).0
  unfolding close_connection
  close_connection-IsWellFormed reason s out w = on_disconnect-IsWellFormed s w
