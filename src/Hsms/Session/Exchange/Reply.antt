-- ===== src/Hsms/Session/Exchange/Reply.antt =====
-- From a request to its reply, in src/secsgem/hsms/session.cpp.
use semiconductor_metrology.Base.{
  ℕ, zero, suc, ◌+◌, ◌%◌, ◌^◌, ◌<◌, ◌≡◌, refl, sym, ap, subst, ◌∙◌, Bool, true, false, not, ◌&&◌,
  List, [], ◌∷◌, ◌++◌, none, some, ok, ltb, length, arith, Option-cases, Bool-cases, inl, inr,
}
use semiconductor_metrology.Hsms.Frame.{Frame, function}
use semiconductor_metrology.Hsms.FrameDecoder.{feed}
use semiconductor_metrology.Hsms.Timer.{expired}
use semiconductor_metrology.Hsms.Connection.{selected, same_state, apply, legal}
use semiconductor_metrology.Secs2.Message.{Message}
use semiconductor_metrology.Hsms.Session.{
  Session, SessionOutput, no_output, is_open, forget, open_at, send_control, on_connect, accepts,
}
use semiconductor_metrology.Hsms.Session.Receive.{handle_frame}
use semiconductor_metrology.Hsms.Session.Send.{
  send_request, request_with, allocate_system_bytes, search, is_taken,
}
use semiconductor_metrology.Hsms.Session.Tick.{on_tick, is_some, linktest, expire}
use semiconductor_metrology.Hsms.Session.Deadlines.{linktest-keeps}
use semiconductor_metrology.Hsms.Session.Invariant.Run.{
  Call, connected, received, ticked, disconnected, requested, after, perform, run,
}
use semiconductor_metrology.Hsms.Session.Exchange.{
  IsAwaited, deadlines_of, ahead, read_unrelated, on_bytes-IsAwaited, deadlines_of-open_at_other,
  deadlines_of-open_at_new, deadlines_of-expire, is_open-deadlines_of, is_open-forget_last,
}
use semiconductor_metrology.Hsms.Session.Replies.{
  request_opens, deliver-reply, handle_frame-selected,
}

-- Does a call leave the request open: no framing error and no frame that is related to it in a read,
-- no tick once its deadline has come or T6 or T8 has expired, and no end of the connection?
unfoldable pub leaves_open : ℕ → ℕ → Call → Session → Bool
leaves_open system deadline (connected now) s = true
leaves_open system deadline (received now bytes) s = read_unrelated system (feed s.decoder bytes).1
leaves_open system deadline (ticked now) s =
    ltb now deadline
    && not (expired now s.t8)
    && not (is_some s.pending_linktest && expired now s.t6)
leaves_open system deadline disconnected s = false
leaves_open system deadline (requested now message) s = true

unfoldable pub all_leave_open : ℕ → ℕ → List Call → Session → Bool
unfolding leaves_open
all_leave_open system deadline [] s = true
all_leave_open system deadline (call ∷ rest) s =
    leaves_open system deadline call s
    && elim (perform call s) [ none ↦ false | some s' ↦ all_leave_open system deadline rest s' ]

search_found : (t : ℕ → Bool) (fuel c a : ℕ) → search fuel t c ≡ some a → t a ≡ false
unfolding search
search_found t zero c a h = ground arith
search_found t (suc fuel) c a h = elim (Bool-cases (t c)) [
  | inl e ↦ search_found t fuel ((c + 1) % 2 ^ 32) a (rw (search, e) at h)
  | inr e ↦ ground (arith, e)
]

request-IsAwaited :
    (now : ℕ) (message : Message) (s s' : Session) (system deadline : ℕ)
    → IsAwaited system deadline s
    → after (λ r. r.0) (send_request now message s no_output) ≡ some s'
    → IsAwaited system deadline s'
unfolding IsAwaited send_request request_with allocate_system_bytes is_taken
request-IsAwaited now message s s' k d h e =
    elim (Option-cases (search (length s.transactions + 3) (is_taken s) s.next_system_bytes)) [
      | inl f ↦ ground (arith, f)
      | inr (c, f) ↦ ground (
        arith,
        f,
        search_found (is_taken s) (length s.transactions + 3) s.next_system_bytes c f,
        is_open-deadlines_of k s.transactions d [] h.1,
        deadlines_of-open_at_other k c (now + s.config.t3) s.transactions,
      )
    ]

linktest-selected :
    (now : ℕ) (s : Session) (out : SessionOutput) (s' : Session) (out' : SessionOutput)
    → linktest now s out ≡ some (s', out')
    → same_state s'.fsm selected ≡ same_state s.fsm selected
unfolding linktest allocate_system_bytes send_control
linktest-selected now s out s' out' h = ground arith

tick-IsAwaited :
    (now : ℕ) (s s' : Session) (out : SessionOutput) (system deadline : ℕ)
    → leaves_open system deadline (ticked now) s ≡ true
    → IsAwaited system deadline s
    → on_tick now s ≡ some (s', out)
    → IsAwaited system deadline s'
unfolding IsAwaited leaves_open on_tick ahead same_state
tick-IsAwaited now s s' out k d u h e =
    let t = record s { transactions = (expire now s.transactions).0 } in
    let o = record no_output { timed_out = (expire now s.transactions).1 } in
    ground (
      arith,
      linktest-selected now t o s' out,
      linktest-keeps now t o s' out,
      deadlines_of-expire now k s.transactions,
    )

connect-IsAwaited :
    (now : ℕ) (s : Session) (system deadline : ℕ)
    → IsAwaited system deadline s
    → IsAwaited system deadline (on_connect now s).0
unfolding IsAwaited on_connect accepts apply legal same_state
connect-IsAwaited now s k d h = ground arith

some_eq : {s s' : Session} → some s ≡ some s' → s ≡ s'
some_eq {s} e = ap (λ o. elim o [ none ↦ s | some t ↦ t ]) e

perform-IsAwaited :
    (call : Call) (s s' : Session) (system deadline : ℕ)
    → leaves_open system deadline call s ≡ true
    → IsAwaited system deadline s
    → perform call s ≡ some s'
    → IsAwaited system deadline s'
unfolding perform leaves_open
perform-IsAwaited (connected now) s s' k d u h e =
    subst (IsAwaited k d) (some_eq e) (connect-IsAwaited now s k d h)
perform-IsAwaited (received now bytes) s s' k d u h e =
    subst (IsAwaited k d) (some_eq e) (on_bytes-IsAwaited now bytes s k d u h)
perform-IsAwaited (ticked now) s s' k d u h e = elim (Option-cases (on_tick now s)) [
  | inl f ↦ ground (arith, f)
  | inr ((t, out), f) ↦
      subst (IsAwaited k d) (some_eq (sym (ap (after (λ r. r.0)) f) ∙ e))
        (tick-IsAwaited now s t out k d u h f)
]
perform-IsAwaited disconnected s s' k d u h e = ground arith
perform-IsAwaited (requested now message) s s' k d u h e =
    request-IsAwaited now message s s' k d h e

run-IsAwaited :
    (calls : List Call) (s s' : Session) (system deadline : ℕ)
    → all_leave_open system deadline calls s ≡ true
    → IsAwaited system deadline s
    → run calls s ≡ some s'
    → IsAwaited system deadline s'
unfolding run all_leave_open
run-IsAwaited [] s s' k d u h e = subst (IsAwaited k d) (some_eq e) h
run-IsAwaited (call ∷ rest) s s' k d u h e = elim (Option-cases (perform call s)) [
  | inl f ↦ ground (arith, f)
  | inr (t, f) ↦
      run-IsAwaited rest t s' k d (ground (arith, f))
        (perform-IsAwaited call s t k d (ground (arith, f)) h f) (rw (run, f) at e)
]

-- A request that is sent with a reply expected, and then any calls of the session that leave it open:
-- before its T3 deadline they may tick, send, and read any frames but Deselect.req, Separate.req
-- and, with the system bytes of the request, Reject.req and replies, as long as T6 and T8 do not
-- expire and no framing error comes. Then a data frame with an even function number and the
-- system bytes of the request is delivered as its reply; the request, whose system bytes were no
-- open request's before it was sent, is closed by that, and no other request is.
pub send_request-reply :
    (now : ℕ) (message : Message) (s s' s'' : Session) (out out' out'' : SessionOutput) (system : ℕ)
    (calls : List Call) (later : ℕ) (frame : Frame)
    → s.next_system_bytes < 2 ^ 32
    → message.w_bit ≡ true
    → send_request now message s out ≡ some (s', out', ok system)
    → all_leave_open system (now + s.config.t3) calls s' ≡ true
    → run calls s' ≡ some s''
    → frame.header.ptype ≡ 0
    → frame.header.stype ≡ 0
    → function frame.header % 2 ≡ 0
    → frame.header.system_bytes ≡ system
    → ((handle_frame later frame s'' out'').1.deliveries
        ≡ out''.deliveries ++ (record { frame = frame; reply_to = some system } ∷ []))
      × ((handle_frame later frame s'' out'').0.transactions ≡ forget system s''.transactions)
      × (is_open system (handle_frame later frame s'' out'').0.transactions ≡ false)
      × (is_open system s.transactions ≡ false)
unfolding IsAwaited
send_request-reply now message s s' s'' out out' out'' system calls later frame hn hw h u e hp hs
      even same =
    let opened = request_opens now message s out s' out' system hn hw h in
    let waits =
      run-IsAwaited calls s' s'' system (now + s.config.t3) u (just_sent opened.0 opened.1 opened.2)
        e in
    let mine : is_open frame.header.system_bytes s''.transactions ≡ true =
      rw (same) (is_open-deadlines_of system s''.transactions _ [] waits.1) in
    let answered =
      handle_frame-selected later frame s'' out'' hp hs waits.0
      ∙ deliver-reply frame s'' out'' even mine in
    let left : (handle_frame later frame s'' out'').0.transactions
        ≡ forget system s''.transactions =
      ap (λ r. r.0.transactions) answered ∙ ap (λ k. forget k s''.transactions) same in
    (
      ap (λ r. r.1.deliveries) answered ∙ rw (same) refl,
      left,
      ap (is_open system) left ∙ is_open-forget_last system _ s''.transactions waits.1,
      opened.1,
    )
  where
    just_sent :
        same_state s'.fsm selected ≡ true
        → is_open system s.transactions ≡ false
        → s'.transactions ≡ open_at system (now + s.config.t3) s.transactions
        → IsAwaited system (now + s.config.t3) s'
    just_sent sel fresh opens = (
      sel,
      ap (deadlines_of system) opens
          ∙ deadlines_of-open_at_new system (now + s.config.t3) s.transactions fresh,
    )
