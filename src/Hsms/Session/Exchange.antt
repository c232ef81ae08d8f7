-- ===== src/Hsms/Session/Exchange.antt =====
-- A request and its reply in src/secsgem/hsms/session.cpp, with other calls of the session in between.
pub mod Reply
use semiconductor_metrology.Base.{
  Result, ℕ, zero, suc, ◌+◌, ◌%◌, ◌^◌, ◌<◌, ◌≡◌, refl, sym, ap, ◌∙◌, Bool, true, false, not, ◌==◌,
  ◌&&◌, ◌||◌, List, [], ◌∷◌, ◌++◌, Option, none, some, ok, err, if◌then◌else◌, ltb, leb, length,
  arith, Option-cases, Bool-cases, inl, inr,
}
use semiconductor_metrology.Secs2.BigEndian.{Bytes}
use semiconductor_metrology.Hsms.FrameDecoder.{feed}
use semiconductor_metrology.Hsms.Frame.{
  SType, data_message, select_req, select_rsp, deselect_req, deselect_rsp, linktest_req,
  linktest_rsp, reject_req, separate_req, Frame, function, stype_from_byte,
}
use semiconductor_metrology.Hsms.Connection.{not_connected, selected, same_state}
use semiconductor_metrology.Hsms.Session.{
  Session, SessionOutput, Transactions, is_open, forget, open_at, reject, send_control, awaits,
  no_output, reject_ptype_not_supported, reject_stype_not_supported,
}
use semiconductor_metrology.Hsms.Session.Receive.{
  handle_frame, handle_frames, handle_read, on_bytes, dispatch, deliver, on_select, linktest_done,
}
use semiconductor_metrology.Hsms.Session.Invariant.Frames.{handle_frames-more}
use semiconductor_metrology.Hsms.Session.Tick.{expire}

-- The T3 deadlines of the entries with these system bytes.
unfoldable pub deadlines_of : ℕ → Transactions → List ℕ
deadlines_of system [] = []
deadlines_of system ((k, d) ∷ rest) =
    let more = deadlines_of system rest in if k == system then d ∷ more else more

unfoldable pub ahead : ℕ → List ℕ → List ℕ
ahead now [] = []
ahead now (d ∷ rest) = let more = ahead now rest in if leb d now then more else d ∷ more

deadlines_of-open_at_new :
    (k d : ℕ) (ts : Transactions) → is_open k ts ≡ false → deadlines_of k (open_at k d ts) ≡ d ∷ []
unfolding deadlines_of open_at is_open
deadlines_of-open_at_new k d [] h = ground arith
deadlines_of-open_at_new k d ((j, e) ∷ rest) h =
    ground (arith, deadlines_of-open_at_new k d rest, deadlines_of-closed k rest)
  where
    deadlines_of-closed :
        (n : ℕ) (xs : Transactions) → is_open n xs ≡ false → deadlines_of n xs ≡ []
    deadlines_of-closed n [] c = refl
    deadlines_of-closed n ((j, e) ∷ xs) c = ground (arith, deadlines_of-closed n xs)

deadlines_of-open_at_other :
    (k c d : ℕ) (ts : Transactions)
    → (c == k) ≡ false
    → deadlines_of k (open_at c d ts) ≡ deadlines_of k ts
unfolding deadlines_of open_at
deadlines_of-open_at_other k c d [] h = ground arith
deadlines_of-open_at_other k c d ((j, e) ∷ rest) h =
    ground (arith, deadlines_of-open_at_other k c d rest)

deadlines_of-forget_other :
    (k c : ℕ) (ts : Transactions)
    → (c == k) ≡ false
    → deadlines_of k (forget c ts) ≡ deadlines_of k ts
unfolding deadlines_of forget
deadlines_of-forget_other k c [] h = refl
deadlines_of-forget_other k c ((j, e) ∷ rest) h = ground (arith, deadlines_of-forget_other k c rest)

deadlines_of-expire :
    (now k : ℕ) (ts : Transactions)
    → deadlines_of k (expire now ts).0 ≡ ahead now (deadlines_of k ts)
unfolding deadlines_of expire ahead
deadlines_of-expire now k [] = refl
deadlines_of-expire now k ((j, e) ∷ rest) = ground (arith, deadlines_of-expire now k rest)

is_open-deadlines_of :
    (k : ℕ) (ts : Transactions) (d : ℕ) (ds : List ℕ)
    → deadlines_of k ts ≡ d ∷ ds
    → is_open k ts ≡ true
unfolding deadlines_of is_open
is_open-deadlines_of k [] d ds h = ground arith
is_open-deadlines_of k ((j, e) ∷ rest) d ds h = ground (arith, is_open-deadlines_of k rest d ds)

is_open-forget_last :
    (k d : ℕ) (ts : Transactions) → deadlines_of k ts ≡ d ∷ [] → is_open k (forget k ts) ≡ false
unfolding deadlines_of is_open forget
is_open-forget_last k d [] h = refl
is_open-forget_last k d ((j, e) ∷ rest) h =
    ground (arith, is_open-forget_last k d rest, none_left k rest)
  where
    none_left : (n : ℕ) (xs : Transactions) → deadlines_of n xs ≡ [] → is_open n xs ≡ false
    none_left n [] c = refl
    none_left n ((j, e) ∷ xs) c = ground (arith, none_left n xs)

-- The session waits for the reply to a request, until this deadline.
pub IsAwaited : ℕ → ℕ → Session → Type 0
IsAwaited system deadline s =
    (same_state s.fsm selected ≡ true) × (deadlines_of system s.transactions ≡ deadline ∷ [])

-- Does a frame leave the request open? It does not where it is Deselect.req or Separate.req, or
-- Reject.req or a reply with the system bytes of the request.
unfoldable pub unrelated_type : ℕ → SType → Frame → Bool
unfolding function
unrelated_type system data_message frame =
    not (function frame.header % 2 == 0 && frame.header.system_bytes == system)
unrelated_type system reject_req frame = not (frame.header.system_bytes == system)
unrelated_type system deselect_req frame = false
unrelated_type system separate_req frame = false
unrelated_type system _ frame = true

unfoldable pub unrelated : ℕ → Frame → Bool
unfolding unrelated_type
unrelated system frame = elim (stype_from_byte frame.header.stype) [
  | none ↦ true
  | some stype ↦ unrelated_type system stype frame
]

dispatch-IsAwaited :
    (now : ℕ) (stype : SType) (frame : Frame) (s : Session) (out : SessionOutput)
    (system deadline : ℕ)
    → unrelated_type system stype frame ≡ true
    → IsAwaited system deadline s
    → IsAwaited system deadline (dispatch now stype frame s out).0
      × ((dispatch now stype frame s out).1.close ≡ out.close)
unfolding IsAwaited dispatch unrelated_type deliver on_select reject send_control same_state
dispatch-IsAwaited now data_message frame s out k d u h =
    ground (arith, deadlines_of-forget_other k frame.header.system_bytes s.transactions)
dispatch-IsAwaited now select_req frame s out k d u h = ground arith
dispatch-IsAwaited now select_rsp frame s out k d u h = ground arith
dispatch-IsAwaited now deselect_req frame s out k d u h = ground arith
dispatch-IsAwaited now deselect_rsp frame s out k d u h = ground arith
dispatch-IsAwaited now linktest_req frame s out k d u h = ground arith
dispatch-IsAwaited now linktest_rsp frame s out k d u h = ground arith
dispatch-IsAwaited now reject_req frame s out k d u h =
    ground (arith, deadlines_of-forget_other k frame.header.system_bytes s.transactions)
dispatch-IsAwaited now separate_req frame s out k d u h = ground arith

handle_frame-IsAwaited :
    (now : ℕ) (frame : Frame) (s : Session) (out : SessionOutput) (system deadline : ℕ)
    → unrelated system frame ≡ true
    → IsAwaited system deadline s
    → IsAwaited system deadline (handle_frame now frame s out).0
      × ((handle_frame now frame s out).1.close ≡ out.close)
unfolding handle_frame unrelated reject send_control
handle_frame-IsAwaited now frame s out system deadline u h =
    pick (not (frame.header.ptype == 0)) (stype_from_byte frame.header.stype) u
  where
    Kept : Session × SessionOutput → Type 0
    Kept r = IsAwaited system deadline r.0 × (r.1.close ≡ out.close)

    pick :
        (foreign : Bool) (known : Option SType)
        → elim known [ none ↦ true | some stype ↦ unrelated_type system stype frame ] ≡ true
        → Kept (
            if foreign then (s, reject frame reject_ptype_not_supported out) else elim known [
              | none ↦ (s, reject frame reject_stype_not_supported out)
              | some stype ↦ dispatch now stype frame s out
            ])
    pick true known e = (h, refl)
    pick false none e = (h, refl)
    pick false (some stype) e = dispatch-IsAwaited now stype frame s out system deadline e h

unfoldable pub all_unrelated : ℕ → List Frame → Bool
unfolding unrelated
all_unrelated system [] = true
all_unrelated system (frame ∷ rest) = unrelated system frame && all_unrelated system rest

handle_frames-IsAwaited :
    (now : ℕ) (frames : List Frame) (s : Session) (out : SessionOutput) (system deadline : ℕ)
    → all_unrelated system frames ≡ true
    → IsAwaited system deadline s
    → out.close ≡ false
    → IsAwaited system deadline (handle_frames now frames s out).0
      × ((handle_frames now frames s out).1.close ≡ false)
unfolding handle_frames all_unrelated
handle_frames-IsAwaited now [] s out system deadline u h c = (h, c)
handle_frames-IsAwaited now (frame ∷ rest) s out system deadline u h c =
    let here : unrelated system frame ≡ true = ground arith in
    let there : all_unrelated system rest ≡ true = ground arith in
    let one = handle_frame-IsAwaited now frame s out system deadline here h in
    let still = one.1 ∙ c in
    rw (handle_frames-more now frame rest s out still) (
      handle_frames-IsAwaited now rest (handle_frame now frame s out).0
        (handle_frame now frame s out).1 system deadline there one.0 still)

-- A read leaves the request open where its frames do.
unfoldable pub read_unrelated : ℕ → Result (List Frame) → Bool
unfolding all_unrelated
read_unrelated system (err e) = false
read_unrelated system (ok frames) = all_unrelated system frames

on_bytes-IsAwaited :
    (now : ℕ) (bytes : Bytes) (s : Session) (system deadline : ℕ)
    → read_unrelated system (feed s.decoder bytes).1 ≡ true
    → IsAwaited system deadline s
    → IsAwaited system deadline (on_bytes now bytes s).0
unfolding on_bytes handle_read read_unrelated IsAwaited same_state
on_bytes-IsAwaited now bytes s system deadline u h = rw (connected_now) (
    after (feed s.decoder bytes).1 u
      (record s { last_activity = now; decoder = (feed s.decoder bytes).0 }) h)
  where
    connected_now : same_state s.fsm not_connected ≡ false
    connected_now = ground arith

    after :
        (r : Result (List Frame))
        → read_unrelated system r ≡ true
        → (t : Session) → IsAwaited system deadline t
        → IsAwaited system deadline (handle_read now r t).0
    after (ok frames) u' t h' =
        let all = handle_frames-IsAwaited now frames t no_output system deadline u' h' refl in
        rw (all.1) (all.0)
    after (err e) u' t h' = ground arith
