-- ===== src/Hsms/Session/Invariant/Run.antt =====
-- Histories of calls of a session (src/secsgem/hsms/session.cpp).
use semiconductor_metrology.Base.{ℕ, ◌+◌, ◌^◌, ◌≤◌, ◌<◌, List, [], ◌∷◌, Option, none, some}
use semiconductor_metrology.Secs2.BigEndian.{Bytes}
use semiconductor_metrology.Secs2.Message.{Message}
use semiconductor_metrology.Hsms.Session.{
  SessionConfig, Session, SessionOutput, no_output, new, on_connect, on_disconnect,
}
use semiconductor_metrology.Hsms.Session.Receive.{on_bytes}
use semiconductor_metrology.Hsms.Session.Send.{Sent, send_request}
use semiconductor_metrology.Hsms.Session.Tick.{on_tick}
use semiconductor_metrology.Hsms.Session.Invariant.{
  IsWellFormed, new-IsWellFormed, on_disconnect-IsWellFormed, on_connect-IsWellFormed,
}
use semiconductor_metrology.Hsms.Session.Invariant.Frames.{on_bytes-IsWellFormed}
use semiconductor_metrology.Hsms.Session.Invariant.Totality.{
  Returns, send_request-Returns, on_tick-Returns,
}

-- A call of the session: a connection, bytes, a tick, the end of the connection, or a request to
-- send. (A call of send_reply leaves the session as it is.)
pub data Call : Type 0 where
  connected : ℕ → Call
  received : ℕ → Bytes → Call
  ticked : ℕ → Call
  disconnected : Call
  requested : ℕ → Message → Call

-- The session after a call, or none where the call does not return.
abbrev pub after {ℓ} : {A : Type ℓ} → (A → Session) → Option A → Option Session
after f none = none
after f (some r) = some (f r)

Returns-after {ℓ} :
    {A : Type ℓ} (P : Session → Type 0) (f : A → Session) (o : Option A)
    → Returns (λ r. P (f r)) o
    → Returns P (after f o)
Returns-after P f none r = r
Returns-after P f (some a) r = r

unfoldable pub perform : Call → Session → Option Session
perform (connected now) s = some (on_connect now s).0
perform (received now bytes) s = some (on_bytes now bytes s).0
perform (ticked now) s = after (λ r. r.0) (on_tick now s)
perform disconnected s = some (on_disconnect s)
perform (requested now message) s = after (λ r. r.0) (send_request now message s no_output)

unfoldable pub run : List Call → Session → Option Session
run [] s = some s
run (call ∷ rest) s = elim (perform call s) [ none ↦ none | some s' ↦ run rest s' ]

module _ {c : SessionConfig} (room : c.max_open_transactions + 3 ≤ 2 ^ 32) where
  perform-Returns :
      (call : Call) (s : Session) → IsWellFormed c s → Returns (IsWellFormed c) (perform call s)
  unfolding perform
  perform-Returns (connected now) s w = on_connect-IsWellFormed now s w
  perform-Returns (received now bytes) s w = on_bytes-IsWellFormed now bytes s w
  perform-Returns (ticked now) s w =
      Returns-after (IsWellFormed c) (λ (r : Session × SessionOutput). r.0) (on_tick now s)
        (on_tick-Returns now s room w)
  perform-Returns disconnected s w = on_disconnect-IsWellFormed s w
  perform-Returns (requested now message) s w =
      Returns-after (IsWellFormed c) (λ (r : Sent ℕ). r.0) (send_request now message s no_output)
        (send_request-Returns now message s no_output room w)

  run-Returns :
      (calls : List Call) (s : Session) → IsWellFormed c s → Returns (IsWellFormed c) (run calls s)
  unfolding run
  run-Returns [] s w = w
  run-Returns (call ∷ rest) s w =
      onward (λ s'. run-Returns rest s') (perform call s) (perform-Returns call s w)
    where
      onward :
          ((s' : Session) → IsWellFormed c s' → Returns (IsWellFormed c) (run rest s'))
          → (o : Option Session) → Returns (IsWellFormed c) o
          → Returns (IsWellFormed c) (elim o [ none ↦ none | some s' ↦ run rest s' ])
      onward more none r = r
      onward more (some s') r = more s' r

-- With room for the open requests among the system bytes, every history of calls to a new session
-- returns, and leaves it well formed: T7 runs exactly while it is not selected, T6 exactly while a
-- linktest is pending, requests are open only while it is selected and no more than the limit, and
-- without a connection nothing runs, waits or is buffered.
pub run-new-IsWellFormed :
    (c : SessionConfig) (calls : List Call)
    → c.max_open_transactions + 3 ≤ 2 ^ 32
    → c.first_system_bytes < 2 ^ 32
    → Returns (IsWellFormed c) (run calls (new c))
run-new-IsWellFormed c calls room first = run-Returns room calls (new c) (new-IsWellFormed first)
