-- ===== src/Hsms/Session/Invariant/Frames.antt =====
-- The invariant of the session through Session::handle_frame and Session::on_bytes
-- (src/secsgem/hsms/session.cpp).
use semiconductor_metrology.Base.{
  ℕ, ◌≤◌, ◌≡◌, refl, Bool, true, false, not, List, [], ◌∷◌, Option, none, some, Result, ok, err,
  ◌==◌, if◌then◌else◌, length, arith, Bool-cases, inl, inr,
}
use semiconductor_metrology.Secs2.BigEndian.{Bytes}
use semiconductor_metrology.Hsms.Frame.{
  SType, data_message, select_req, select_rsp, deselect_req, deselect_rsp, linktest_req,
  linktest_rsp, reject_req, separate_req, Frame, stype_from_byte,
}
use semiconductor_metrology.Hsms.FrameDecoder.{FrameDecoder, feed}
use semiconductor_metrology.Hsms.Connection.{
  not_connected, selected, same_state, legal, next, apply,
}
use semiconductor_metrology.Hsms.Session.{
  SessionConfig, Session, SessionOutput, no_output, Transactions, close_connection, fire, forget,
  awaits, reject, reject_ptype_not_supported, reject_stype_not_supported,
}
use semiconductor_metrology.Hsms.Session.Receive.{
  deliver, on_select, on_deselect, dispatch, handle_frame, handle_frames, on_bytes, handle_read,
  watch_frame,
}
use semiconductor_metrology.Hsms.Session.Tick.{is_some}
use semiconductor_metrology.Hsms.Session.Invariant.{IsWellFormed, close_connection-IsWellFormed}

length-forget : (system : ℕ) (ts : Transactions) → length (forget system ts) ≤ length ts
unfolding forget
length-forget system [] = omega arith
length-forget system ((k, deadline) ∷ rest) = ground (arith, length-forget system rest)

handle_frames-last :
    (now : ℕ) (frame : Frame) (rest : List Frame) (s : Session) (out : SessionOutput)
    → (handle_frame now frame s out).1.close ≡ true
    → handle_frames now (frame ∷ rest) s out ≡ handle_frame now frame s out
unfolding handle_frames
handle_frames-last now frame rest s out h = ground arith

pub handle_frames-more :
    (now : ℕ) (frame : Frame) (rest : List Frame) (s : Session) (out : SessionOutput)
    → (handle_frame now frame s out).1.close ≡ false
    → handle_frames now (frame ∷ rest) s out
      ≡ handle_frames now rest (handle_frame now frame s out).0 (handle_frame now frame s out).1
unfolding handle_frames
handle_frames-more now frame rest s out h = rw (handle_frames, h)

-- A frame is rejected, or handled by its SType.
pub handle_frame-cases {κ} :
    (P : Session × SessionOutput → Type κ) (now : ℕ) (frame : Frame) (s : Session)
    (out : SessionOutput)
    → ((reason : ℕ) → P (s, reject frame reason out))
    → ((stype : SType) → P (dispatch now stype frame s out))
    → P (handle_frame now frame s out)
unfolding handle_frame
handle_frame-cases P now frame s out rejected handled =
    pick (not (frame.header.ptype == 0)) (stype_from_byte frame.header.stype)
  where
    pick :
        (foreign : Bool) (known : Option SType)
        → P (
            if foreign then (s, reject frame reject_ptype_not_supported out) else elim known [
              | none ↦ (s, reject frame reject_stype_not_supported out)
              | some stype ↦ dispatch now stype frame s out
            ])
    pick true known = rejected reject_ptype_not_supported
    pick false none = rejected reject_stype_not_supported
    pick false (some stype) = handled stype

forget-nil : (system : ℕ) → forget system [] ≡ []
unfolding forget
forget-nil system = refl

module _ {c : SessionConfig} where
  deliver-IsWellFormed :
      (frame : Frame) (s : Session) (out : SessionOutput)
      → same_state s.fsm selected ≡ true
      → IsWellFormed c s
      → IsWellFormed c (deliver frame s out).0
  unfolding deliver
  deliver-IsWellFormed frame s out h w =
      ground (arith, length-forget frame.header.system_bytes s.transactions)

  on_select-IsWellFormed :
      (system : ℕ) (s : Session) (out : SessionOutput)
      → IsWellFormed c s
      → IsWellFormed c (on_select system s out).0
  unfolding on_select fire apply legal next same_state is_some
  on_select-IsWellFormed system s out w = ground arith

  on_deselect-IsWellFormed :
      (now system : ℕ) (s : Session) (out : SessionOutput)
      → IsWellFormed c s
      → IsWellFormed c (on_deselect now system s out).0
  unfolding on_deselect fire apply legal next same_state is_some
  on_deselect-IsWellFormed now system s out w = ground arith

  -- Reject.req
  refused-IsWellFormed :
      (now : ℕ) (frame : Frame) (s : Session) (out : SessionOutput)
      → IsWellFormed c s
      → IsWellFormed c (dispatch now reject_req frame s out).0
  unfolding dispatch awaits is_some
  refused-IsWellFormed now frame s out w = ground (
    arith,
    length-forget frame.header.system_bytes s.transactions,
    forget-nil frame.header.system_bytes,
  )

  -- Linktest.rsp
  answered-IsWellFormed :
      (now : ℕ) (frame : Frame) (s : Session) (out : SessionOutput)
      → IsWellFormed c s
      → IsWellFormed c (dispatch now linktest_rsp frame s out).0
  unfolding dispatch awaits is_some
  answered-IsWellFormed now frame s out w = ground arith

  dispatch-IsWellFormed :
      (now : ℕ) (stype : SType) (frame : Frame) (s : Session) (out : SessionOutput)
      → IsWellFormed c s
      → IsWellFormed c (dispatch now stype frame s out).0
  unfolding dispatch
  dispatch-IsWellFormed now data_message frame s out w =
      ground (arith, deliver-IsWellFormed frame s out)
  dispatch-IsWellFormed now select_req frame s out w = on_select-IsWellFormed _ s out w
  dispatch-IsWellFormed now select_rsp frame s out w = w
  dispatch-IsWellFormed now deselect_req frame s out w = on_deselect-IsWellFormed now _ s out w
  dispatch-IsWellFormed now deselect_rsp frame s out w = w
  dispatch-IsWellFormed now linktest_req frame s out w = w
  dispatch-IsWellFormed now linktest_rsp frame s out w = answered-IsWellFormed now frame s out w
  dispatch-IsWellFormed now reject_req frame s out w = refused-IsWellFormed now frame s out w
  dispatch-IsWellFormed now separate_req frame s out w = close_connection-IsWellFormed _ s out w

  handle_frame-IsWellFormed :
      (now : ℕ) (frame : Frame) (s : Session) (out : SessionOutput)
      → IsWellFormed c s
      → IsWellFormed c (handle_frame now frame s out).0
  handle_frame-IsWellFormed now frame s out w =
      handle_frame-cases (λ r. IsWellFormed c r.0) now frame s out (λ reason. w)
        (λ t. dispatch-IsWellFormed now t frame s out w)

  handle_frames-IsWellFormed :
      (now : ℕ) (frames : List Frame) (s : Session) (out : SessionOutput)
      → IsWellFormed c s
      → IsWellFormed c (handle_frames now frames s out).0
  unfolding handle_frames
  handle_frames-IsWellFormed now [] s out w = w
  handle_frames-IsWellFormed now (frame ∷ rest) s out w =
      elim (Bool-cases (handle_frame now frame s out).1.close) [
        | inl e ↦
            rw (handle_frames-last now frame rest s out e)
              (handle_frame-IsWellFormed now frame s out w)
        | inr e ↦ rw (handle_frames-more now frame rest s out e) (
            handle_frames-IsWellFormed now rest (handle_frame now frame s out).0
              (handle_frame now frame s out).1 (handle_frame-IsWellFormed now frame s out w))
      ]

-- A frame that leaves the connection open leaves the session connected.
dispatch-connected :
    (now : ℕ) (stype : SType) (frame : Frame) (s : Session) (out : SessionOutput)
    → same_state s.fsm not_connected ≡ false
    → (dispatch now stype frame s out).1.close ≡ false
    → same_state (dispatch now stype frame s out).0.fsm not_connected ≡ false
unfolding dispatch deliver on_select on_deselect fire apply legal next same_state close_connection
dispatch-connected now data_message frame s out h e = ground arith
dispatch-connected now select_req frame s out h e = ground arith
dispatch-connected now select_rsp frame s out h e = h
dispatch-connected now deselect_req frame s out h e = ground arith
dispatch-connected now deselect_rsp frame s out h e = h
dispatch-connected now linktest_req frame s out h e = h
dispatch-connected now linktest_rsp frame s out h e = ground arith
dispatch-connected now reject_req frame s out h e = ground arith
dispatch-connected now separate_req frame s out h e = ground arith

handle_frame-connected :
    (now : ℕ) (frame : Frame) (s : Session) (out : SessionOutput)
    → same_state s.fsm not_connected ≡ false
    → (handle_frame now frame s out).1.close ≡ false
    → same_state (handle_frame now frame s out).0.fsm not_connected ≡ false
handle_frame-connected now frame s out h =
    handle_frame-cases (λ r. r.1.close ≡ false → same_state r.0.fsm not_connected ≡ false) now frame
      s out (λ reason e. h) (λ t. dispatch-connected now t frame s out h)

handle_frames-connected :
    (now : ℕ) (frames : List Frame) (s : Session) (out : SessionOutput)
    → same_state s.fsm not_connected ≡ false
    → (handle_frames now frames s out).1.close ≡ false
    → same_state (handle_frames now frames s out).0.fsm not_connected ≡ false
unfolding handle_frames
handle_frames-connected now [] s out h e = h
handle_frames-connected now (frame ∷ rest) s out h e =
    elim (Bool-cases (handle_frame now frame s out).1.close) [
      | inl last ↦ rw (handle_frames-last now frame rest s out last) (
          handle_frame-connected now frame s out h
            (rw⁻¹ (handle_frames-last now frame rest s out last) e))
      | inr more ↦ rw (handle_frames-more now frame rest s out more) (
          handle_frames-connected now rest (handle_frame now frame s out).0
            (handle_frame now frame s out).1 (handle_frame-connected now frame s out h more)
            (rw⁻¹ (handle_frames-more now frame rest s out more) e))
    ]

module _ {c : SessionConfig} where
  -- A connected session that reads on, and a session after the frames of a read.
  read-IsWellFormed :
      (now : ℕ) (decoder' : FrameDecoder) (s : Session)
      → same_state s.fsm not_connected ≡ false
      → IsWellFormed c s
      → IsWellFormed c (record s { last_activity = now; decoder = decoder' })
  read-IsWellFormed now decoder' s h w = ground arith

  watch_frame-IsWellFormed :
      (now : ℕ) (s : Session)
      → same_state s.fsm not_connected ≡ false
      → IsWellFormed c s
      → IsWellFormed c (watch_frame now s)
  watch_frame-IsWellFormed now s h w = ground arith

  handle_read-IsWellFormed :
      (now : ℕ) (fed : Result (List Frame)) (s : Session)
      → same_state s.fsm not_connected ≡ false
      → IsWellFormed c s
      → IsWellFormed c (handle_read now fed s).0
  unfolding handle_read
  handle_read-IsWellFormed now (err e) s h w = close_connection-IsWellFormed _ s no_output w
  handle_read-IsWellFormed now (ok frames) s h w =
      watched (handle_frames now frames s no_output).1.close
        (handle_frames-connected now frames s no_output h)
    where
      watched :
          (shut : Bool)
          → (shut ≡ false
              → same_state (handle_frames now frames s no_output).0.fsm not_connected ≡ false)
          → IsWellFormed c (
              if shut
              then (handle_frames now frames s no_output).0
              else watch_frame now (handle_frames now frames s no_output).0)
      watched true going = handle_frames-IsWellFormed now frames s no_output w
      watched false going =
          watch_frame-IsWellFormed now _ (going refl)
            (handle_frames-IsWellFormed now frames s no_output w)

  pub on_bytes-IsWellFormed :
      (now : ℕ) (bytes : Bytes) (s : Session)
      → IsWellFormed c s
      → IsWellFormed c (on_bytes now bytes s).0
  unfolding on_bytes
  on_bytes-IsWellFormed now bytes s w = elim (Bool-cases (same_state s.fsm not_connected)) [
    | inl off ↦ rw (on_bytes, off) w
    | inr connected ↦
        rw (on_bytes, connected)
          (handle_read-IsWellFormed now (feed s.decoder bytes).1 _ connected
            (read-IsWellFormed now (feed s.decoder bytes).0 s connected w))
  ]
