-- ===== src/Hsms/Session/Invariant/Totality.antt =====
-- The invariant of the session through the calls that allocate system bytes, Session::on_tick and
-- Session::send_request (src/secsgem/hsms/session.cpp).
use semiconductor_metrology.Base.{
  ℕ, suc, ◌+◌, ◌%◌, ◌^◌, ◌≤◌, ◌<◌, ◌≡◌, refl, Bool, true, false, leb, ◌&&◌, [], ◌∷◌, Option, none,
  some, if◌then◌else◌, length, arith, Bool-cases, inl, inr,
}
use semiconductor_metrology.Hsms.Frame.{linktest_req}
use semiconductor_metrology.Hsms.Connection.{
  not_connected, not_selected, selected, same_state, legal, next, apply, t7_timeout,
}
use semiconductor_metrology.Hsms.Timer.{start, expired}
use semiconductor_metrology.Secs2.Message.{Message}
use semiconductor_metrology.Hsms.Session.{
  SessionConfig, Session, SessionOutput, no_output, Transactions, close_connection,
  reset_link_state, fire, open_at, send_control,
}
use semiconductor_metrology.Hsms.Session.Send.{send_request, request_with, allocate_system_bytes}
use semiconductor_metrology.Hsms.Session.Send.Fresh.{allocate_system_bytes-fresh}
use semiconductor_metrology.Hsms.Session.Tick.{is_some, expire, is_idle, linktest, on_tick}
use semiconductor_metrology.Hsms.Session.Invariant.{IsWellFormed, close_connection-IsWellFormed}

length-open_at :
    (system deadline : ℕ) (ts : Transactions)
    → length (open_at system deadline ts) ≤ suc (length ts)
unfolding open_at
length-open_at system deadline [] = omega arith
length-open_at system deadline ((k, d) ∷ rest) = ground (arith, length-open_at system deadline rest)

length-expire : (now : ℕ) (ts : Transactions) → length (expire now ts).0 ≤ length ts
unfolding expire
length-expire now [] = omega arith
length-expire now ((k, deadline) ∷ rest) = ground (arith, length-expire now rest)

expire-nil : (now : ℕ) → (expire now []).0 ≡ []
unfolding expire
expire-nil now = refl

idle_selected : (now : ℕ) (s : Session) → is_idle now s ≡ true → same_state s.fsm selected ≡ true
unfolding is_idle
idle_selected now s idle = ground arith

-- The call returns, and what it returns is as the predicate says.
abbrev pub Returns {ℓ} : {A : Type ℓ} → (A → Type 0) → Option A → Type 0
Returns P none = ⊥
Returns P (some a) = P a

module _ {c : SessionConfig} where
  allocated-IsWellFormed :
      (s : Session) (n : ℕ)
      → IsWellFormed c s
      → IsWellFormed c (record s { next_system_bytes = (n + 1) % 2 ^ 32 })
  allocated-IsWellFormed s n w = ground arith

  request_with-IsWellFormed :
      (now : ℕ) (message : Message) (out : SessionOutput) (system : ℕ) (s : Session)
      → same_state s.fsm selected ≡ true
      → (message.w_bit ≡ true → length s.transactions < c.max_open_transactions)
      → IsWellFormed c s
      → IsWellFormed c (request_with now message out system s).0
  unfolding request_with
  request_with-IsWellFormed now message out system s h room w =
      ground (arith, length-open_at system (now + s.config.t3) s.transactions)

  -- allocate_system_bytes returns, and changes the generator alone.
  allocate_system_bytes-Returns :
      (s : Session)
      → c.max_open_transactions + 3 ≤ 2 ^ 32
      → IsWellFormed c s
      → Returns
          (λ a. a.1 ≡ record s { next_system_bytes = (a.0 + 1) % 2 ^ 32 })
          (allocate_system_bytes s)
  allocate_system_bytes-Returns s room w =
      let fresh = allocate_system_bytes-fresh s (omega (arith, w.bounded)) w.word in
      rw (fresh.1) refl

  pub send_request-Returns :
      (now : ℕ) (message : Message) (s : Session) (out : SessionOutput)
      → c.max_open_transactions + 3 ≤ 2 ^ 32
      → IsWellFormed c s
      → Returns (λ r. IsWellFormed c r.0) (send_request now message s out)
  unfolding send_request
  send_request-Returns now message s out room w = elim (Bool-cases (same_state s.fsm selected)) [
    | inl e ↦
        elim (Bool-cases
          (message.w_bit && leb s.config.max_open_transactions (length s.transactions))) [
            | inl full ↦ rw (send_request, e, full) w
            | inr free ↦
                rw (send_request, e, free)
                  (sent e (below free) (allocate_system_bytes s)
                    (allocate_system_bytes-Returns s room w))
          ]
    | inr e ↦ rw (send_request, e) w
  ]
    where
      below :
          (message.w_bit && leb s.config.max_open_transactions (length s.transactions)) ≡ false
          → message.w_bit ≡ true
          → length s.transactions < c.max_open_transactions
      below free e = ground arith

      sent :
          (same_state s.fsm selected ≡ true)
          → (message.w_bit ≡ true → length s.transactions < c.max_open_transactions)
          → (o : Option (ℕ × Session))
          → Returns (λ a. a.1 ≡ record s { next_system_bytes = (a.0 + 1) % 2 ^ 32 }) o
          → Returns
              (λ r. IsWellFormed c r.0)
              (elim o [ none ↦ none | some a ↦ some (request_with now message out a.0 a.1) ])
      sent e less none r = r
      sent e less (some a) r =
          rw (r) (
            request_with-IsWellFormed now message out a.0 _ e less (allocated-IsWellFormed s a.0 w))

  asking-IsWellFormed :
      (now system : ℕ) (s : Session)
      → same_state s.fsm selected ≡ true
      → IsWellFormed c s
      → IsWellFormed c (record s {
        pending_linktest = some system;
        t6 = start now s.config.t6;
        last_activity = now;
        next_system_bytes = (system + 1) % 2 ^ 32;
      })
  unfolding same_state is_some
  asking-IsWellFormed now system s e w = ground arith

  linktest-Returns :
      (now : ℕ) (s : Session) (out : SessionOutput)
      → c.max_open_transactions + 3 ≤ 2 ^ 32
      → IsWellFormed c s
      → Returns (λ r. IsWellFormed c r.0) (linktest now s out)
  unfolding linktest
  linktest-Returns now s out room w = elim (Bool-cases (is_idle now s)) [
    | inl idle ↦
        rw (linktest, idle)
          (asked (idle_selected now s idle) (allocate_system_bytes s)
            (allocate_system_bytes-Returns s room w))
    | inr e ↦ rw (linktest, e) w
  ]
    where
      asked :
          (same_state s.fsm selected ≡ true)
          → (o : Option (ℕ × Session))
          → Returns (λ a. a.1 ≡ record s { next_system_bytes = (a.0 + 1) % 2 ^ 32 }) o
          → Returns {A = Session × SessionOutput}
              (λ r. IsWellFormed c r.0)
              (elim o [
                | none ↦ none
                | some a ↦ some (
                  record (a.1) {
                    pending_linktest = some a.0;
                    t6 = start now s.config.t6;
                    last_activity = now;
                  },
                  send_control linktest_req a.0 0 0 out,
                )
              ])
      asked e none r = r
      asked e (some a) r = rw (r) (asking-IsWellFormed now a.0 s e w)

  expired-IsWellFormed :
      (now : ℕ) (s : Session)
      → IsWellFormed c s
      → IsWellFormed c (record s { transactions = (expire now s.transactions).0 })
  expired-IsWellFormed now s w = ground (arith, length-expire now s.transactions, expire-nil now)

  t7_fired-IsWellFormed :
      (s : Session)
      → same_state s.fsm not_selected ≡ true
      → IsWellFormed c s
      → IsWellFormed c (reset_link_state (fire t7_timeout s))
  unfolding reset_link_state fire apply legal next same_state is_some
  t7_fired-IsWellFormed s h w = ground arith

  pub on_tick-Returns :
      (now : ℕ) (s : Session)
      → c.max_open_transactions + 3 ≤ 2 ^ 32
      → IsWellFormed c s
      → Returns (λ r. IsWellFormed c r.0) (on_tick now s)
  unfolding on_tick
  on_tick-Returns now s room w =
      choose (same_state s.fsm not_connected) (same_state s.fsm not_selected && expired now s.t7)
        refl (expired now s.t8) (is_some s.pending_linktest && expired now s.t6)
    where
      choose :
          (off t7_late : Bool)
          → (same_state s.fsm not_selected && expired now s.t7) ≡ t7_late
          → (t8_late t6_late : Bool)
          → Returns
              (λ r. IsWellFormed c r.0)
              (if off
                then some (s, no_output)
                else if t7_late
                then some (
                  reset_link_state (fire t7_timeout s),
                  record no_output {
                    close = true;
                    close_reason = "T7 timeout: not selected in time";
                  },
                )
                else if t8_late
                then some (close_connection "T8 timeout: frame stalled" s no_output)
                else if t6_late
                then some (close_connection "T6 timeout: no Linktest.rsp" s no_output)
                else linktest now
                    (record s { transactions = (expire now s.transactions).0 })
                    (record no_output { timed_out = (expire now s.transactions).1 }))
      choose true late e t8_late t6_late = w
      choose false true e t8_late t6_late = t7_fired-IsWellFormed s (ground arith) w
      choose false false e true t6_late = close_connection-IsWellFormed _ s no_output w
      choose false false e false true = close_connection-IsWellFormed _ s no_output w
      choose false false e false false =
          linktest-Returns now _ _ room (expired-IsWellFormed now s w)
