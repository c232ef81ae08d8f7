-- ===== src/Hsms/Session/Deadlines.antt =====
-- The reply timeout T3 in Session::on_tick of src/secsgem/hsms/session.cpp.
use semiconductor_metrology.Base.{
  ℕ, ◌+◌, ◌≡◌, refl, ap, ◌∙◌, Bool, false, List, [], ◌∷◌, some, ◌==◌, ◌&&◌, ◌||◌, length, arith,
  ltb, leb,
}
use semiconductor_metrology.Hsms.Connection.{not_connected, same_state}
use semiconductor_metrology.Hsms.Session.{
  Session, SessionOutput, Transactions, close_connection, send_control, no_output,
}
use semiconductor_metrology.Hsms.Session.Send.{allocate_system_bytes}
use semiconductor_metrology.Hsms.Session.Tick.{expire, linktest, on_tick}

-- Is a request open with these system bytes and this deadline?
unfoldable pub awaits_until : ℕ → ℕ → Transactions → Bool
awaits_until system deadline [] = false
awaits_until system deadline ((k, d) ∷ rest) =
    (k == system && d == deadline) || awaits_until system deadline rest

-- Is one open whose deadline has come?
unfoldable pub is_late : ℕ → ℕ → Transactions → Bool
is_late system now [] = false
is_late system now ((k, d) ∷ rest) = (k == system && leb d now) || is_late system now rest

unfoldable pub mentions : ℕ → List ℕ → Bool
mentions system [] = false
mentions system (k ∷ rest) = k == system || mentions system rest

length-expire_sum :
    (now : ℕ) (ts : Transactions) → length (expire now ts).1 + length (expire now ts).0 ≡ length ts
unfolding expire
length-expire_sum now [] = refl
length-expire_sum now ((k, d) ∷ rest) = ground (arith, length-expire_sum now rest)

awaits_until-expire :
    (now system deadline : ℕ) (ts : Transactions)
    → awaits_until system deadline (expire now ts).0
      ≡ (awaits_until system deadline ts && ltb now deadline)
unfolding expire awaits_until
awaits_until-expire now system deadline [] = refl
awaits_until-expire now system deadline ((k, d) ∷ rest) =
    ground (arith, awaits_until-expire now system deadline rest)

mentions-expire :
    (now system : ℕ) (ts : Transactions) → mentions system (expire now ts).1 ≡ is_late system now ts
unfolding expire mentions is_late
mentions-expire now system [] = refl
mentions-expire now system ((k, d) ∷ rest) = ground (arith, mentions-expire now system rest)

pub linktest-keeps :
    (now : ℕ) (s : Session) (out : SessionOutput) (s' : Session) (out' : SessionOutput)
    → linktest now s out ≡ some (s', out')
    → (s'.transactions ≡ s.transactions) × (out'.timed_out ≡ out.timed_out)
unfolding linktest allocate_system_bytes send_control
linktest-keeps now s out s' out' h = ground arith

on_tick-expire :
    (now : ℕ) (s s' : Session) (out : SessionOutput)
    → same_state s.fsm not_connected ≡ false
    → on_tick now s ≡ some (s', out)
    → out.close ≡ false
    → (s'.transactions ≡ (expire now s.transactions).0)
      × (out.timed_out ≡ (expire now s.transactions).1)
unfolding on_tick close_connection
on_tick-expire now s s' out on h open' = ground (
  arith,
  linktest-keeps now (record s { transactions = (expire now s.transactions).0 })
      (record no_output { timed_out = (expire now s.transactions).1 }) s' out,
)

-- After a tick that does not close the connection, exactly the open requests whose T3 deadline is
-- still ahead are open, exactly those with a deadline that has come are reported, and each of them
-- is reported once.
pub on_tick-deadlines :
    (now : ℕ) (s s' : Session) (out : SessionOutput) (system deadline : ℕ)
    → same_state s.fsm not_connected ≡ false
    → on_tick now s ≡ some (s', out)
    → out.close ≡ false
    → (awaits_until system deadline s'.transactions
        ≡ (awaits_until system deadline s.transactions && ltb now deadline))
      × (mentions system out.timed_out ≡ is_late system now s.transactions)
      × (length out.timed_out + length s'.transactions ≡ length s.transactions)
on_tick-deadlines now s s' out system deadline on h still =
    let (kept, reported) = on_tick-expire now s s' out on h still in
    (
      ap (awaits_until system deadline) kept
          ∙ awaits_until-expire now system deadline s.transactions,
      ap (mentions system) reported ∙ mentions-expire now system s.transactions,
      rw (kept, reported) (length-expire_sum now s.transactions),
    )
