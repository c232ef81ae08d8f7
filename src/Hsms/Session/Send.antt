-- ===== src/Hsms/Session/Send.antt =====
-- Session::allocate_system_bytes, queue_data, send_request and send_reply of
-- src/secsgem/hsms/session.cpp. The loop of allocate_system_bytes has as fuel three rounds more than
-- there are open requests; where that is not enough the outcome is none: the call does not return.
pub mod Fresh
use semiconductor_metrology.Base.{
  ℕ, zero, suc, ◌+◌, ◌%◌, ◌^◌, Bool, true, false, not, [], ◌∷◌, ◌++◌, Option, none, some, Result,
  ok, err, fail, ◌==◌, ◌&&◌, ◌||◌, if◌then◌else◌, ltb, leb, length,
}
use semiconductor_metrology.Secs2.BigEndian.{Bytes}
use semiconductor_metrology.Secs2.Codec.{encode}
use semiconductor_metrology.Hsms.Frame.{make_data_frame, encode_frame, header_size}
use semiconductor_metrology.Hsms.Connection.{selected, same_state}
use semiconductor_metrology.Secs2.Message.{Message}
use semiconductor_metrology.Hsms.Session.{
  Session, SessionOutput, is_open, open_at, awaits, err_not_selected, err_too_many_transactions,
  err_message_too_large,
}

-- The candidate is not one to return: 0, an open request's, or the pending linktest's.
unfoldable pub is_taken : Session → ℕ → Bool
is_taken s candidate =
    candidate == 0 || is_open candidate s.transactions || awaits s.pending_linktest candidate

-- The first candidate that is not taken, starting at the given one.
unfoldable pub search : ℕ → (ℕ → Bool) → ℕ → Option ℕ
search zero taken candidate = none
search (suc fuel) taken candidate = elim (taken candidate) [
  | true ↦ search fuel taken ((candidate + 1) % 2 ^ 32)
  | false ↦ some candidate
]

unfoldable pub allocate_system_bytes : Session → Option (ℕ × Session)
allocate_system_bytes s =
    elim (search (length s.transactions + 3) (is_taken s) s.next_system_bytes) [
      | none ↦ none
      | some c ↦ some (c, record s { next_system_bytes = (c + 1) % 2 ^ 32 })
    ]

abbrev pub encode_body : Option semiconductor_metrology.Secs2.Item.Item → Result Bytes
encode_body none = ok []
encode_body (some item) = encode item

-- What is appended to to_send.
unfoldable pub queue_data : Message → ℕ → Session → SessionOutput → SessionOutput × Result Bool
queue_data message system s out = elim (encode_body message.body) [
  | err e ↦ (out, err e)
  | ok body ↦
      if ltb s.config.max_frame_bytes (header_size + length body)
      then (out, fail err_message_too_large "message exceeds the maximum frame size")
      else elim (encode_frame (
          make_data_frame s.config.device_id message.stream message.function message.w_bit system
            body)) [
              | err e ↦ (out, err e)
              | ok bytes ↦ (record out { to_send = out.to_send ++ (bytes ∷ []) }, ok true)
            ]
]

-- The session and the output after a call, and what it returns.
abbrev pub Sent : Type 0 → Type 0
Sent A = Session × SessionOutput × Result A

-- The tail of send_request, from the system bytes that were allocated.
unfoldable pub request_with : ℕ → Message → SessionOutput → ℕ → Session → Sent ℕ
request_with now message out system s =
    let (out', queued) = queue_data message system s out in
    elim queued [
      | err e ↦ (s, out', err e)
      | ok _ ↦
          let opened =
            if message.w_bit
            then open_at system (now + s.config.t3) s.transactions
            else s.transactions in
          (record s { transactions = opened; last_activity = now }, out', ok system)
    ]

unfoldable pub send_request : ℕ → Message → Session → SessionOutput → Option (Sent ℕ)
send_request now message s out =
    if not (same_state s.fsm selected)
    then some (s, out, fail err_not_selected "data messages can only be sent while selected")
    else if message.w_bit && leb s.config.max_open_transactions (length s.transactions)
    then some (s, out, fail err_too_many_transactions "too many open transactions")
    else elim (allocate_system_bytes s) [
      | none ↦ none
      | some allocated ↦ some (request_with now message out allocated.0 allocated.1)
    ]

unfoldable pub send_reply : ℕ → Message → Session → SessionOutput → SessionOutput × Result Bool
send_reply system message s out =
    if not (same_state s.fsm selected)
    then (out, fail err_not_selected "data messages can only be sent while selected")
    else queue_data (record message { w_bit = false }) system s out
