-- ===== src/Hsms/Session/Tick.antt =====
-- Session::on_tick of src/secsgem/hsms/session.cpp.
use semiconductor_metrology.Base.{
  ℕ, ◌+◌, Bool, true, false, not, List, [], ◌∷◌, Option, none, some, ◌&&◌, if◌then◌else◌, leb,
}
use semiconductor_metrology.Hsms.Frame.{linktest_req}
use semiconductor_metrology.Hsms.Connection.{
  not_connected, not_selected, selected, t7_timeout, same_state,
}
use semiconductor_metrology.Hsms.Timer.{start, expired}
use semiconductor_metrology.Hsms.Session.{
  Session, SessionOutput, Transactions, no_output, fire, reset_link_state, close_connection,
  send_control,
}
use semiconductor_metrology.Hsms.Session.Send.{allocate_system_bytes}

unfoldable pub is_some : Option ℕ → Bool
is_some none = false
is_some (some p) = true

-- The T3 loop: the requests that stay open, and the system bytes of those that expired.
unfoldable pub expire : ℕ → Transactions → Transactions × List ℕ
expire now [] = ([], [])
expire now ((system, deadline) ∷ rest) =
    let (left, late) = expire now rest in
    if leb deadline now then (left, system ∷ late) else ((system, deadline) ∷ left, late)

-- The idle link: `now - last_activity_ >= linktest_interval`, with nothing subtracted.
unfoldable pub is_idle : ℕ → Session → Bool
is_idle now s =
    same_state s.fsm selected
    && not (is_some s.pending_linktest)
    && leb (s.last_activity + s.config.linktest_interval) now

unfoldable pub linktest : ℕ → Session → SessionOutput → Option (Session × SessionOutput)
linktest now s out =
    if is_idle now s
    then elim (allocate_system_bytes s) [
      | none ↦ none
      | some allocated ↦ some (
        record (allocated.1) {
          pending_linktest = some allocated.0;
          t6 = start now s.config.t6;
          last_activity = now;
        },
        send_control linktest_req allocated.0 0 0 out,
      )
    ]
    else some (s, out)

unfoldable pub on_tick : ℕ → Session → Option (Session × SessionOutput)
on_tick now s =
    if same_state s.fsm not_connected
    then some (s, no_output)
    else if same_state s.fsm not_selected && expired now s.t7
    then some (
      reset_link_state (fire t7_timeout s),
      record no_output { close = true; close_reason = "T7 timeout: not selected in time" },
    )
    else if expired now s.t8
    then some (close_connection "T8 timeout: frame stalled" s no_output)
    else if is_some s.pending_linktest && expired now s.t6
    then some (close_connection "T6 timeout: no Linktest.rsp" s no_output)
    else let (left, late) = expire now s.transactions in
      linktest now (record s { transactions = left }) (record no_output { timed_out = late })
