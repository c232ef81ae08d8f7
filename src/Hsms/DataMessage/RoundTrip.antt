-- ===== src/Hsms/DataMessage/RoundTrip.antt =====
-- From a SECS-II message to a data frame and back (src/secsgem/hsms/session.cpp,
-- src/secsgem/hsms/data_message.cpp).
use semiconductor_metrology.Base.{
  ℕ, ◌<◌, ◌≡◌, ap, ap₂, ◌∙◌, Bool, true, false, [], ◌∷◌, Option, some, ok, arith, ◌>>=◌,
}
use semiconductor_metrology.Secs2.BigEndian.{Bytes}
use semiconductor_metrology.Secs2.Item.{Item}
use semiconductor_metrology.Secs2.Codec.{
  encode, decode_body, decode_item, decode_at, decode_header, take_bytes,
}
use semiconductor_metrology.Secs2.Codec.RoundTrip.{Encodable, normal, decode_body-encode}
use semiconductor_metrology.Hsms.Frame.{make_data_frame, stream, w_bit, function, stype_code}
use semiconductor_metrology.Hsms.DataMessage.{to_message, message_with}

stream-make_data_frame :
    (session s f : ℕ) (w : Bool) (system : ℕ) (body : Bytes)
    → s < 128
    → stream (make_data_frame session s f w system body).header ≡ s
unfolding stream make_data_frame
stream-make_data_frame session s f true system body h = omega arith
stream-make_data_frame session s f false system body h = omega arith

w_bit-make_data_frame :
    (session s f : ℕ) (w : Bool) (system : ℕ) (body : Bytes)
    → s < 128
    → w_bit (make_data_frame session s f w system body).header ≡ w
unfolding w_bit make_data_frame
w_bit-make_data_frame session s f true system body h = ground arith
w_bit-make_data_frame session s f false system body h = ground arith

-- The message whose parts are in the frame.
message_with-make_data_frame :
    (session s f : ℕ) (w : Bool) (system : ℕ) (body : Bytes) (item : Option Item)
    → s < 128
    → message_with (make_data_frame session s f w system body) item
      ≡ record { stream = s; function = f; w_bit = w; body = item }
unfolding function make_data_frame
message_with-make_data_frame session s f w system body item h =
    ap₂ (λ a b. record { stream = a; function = f; w_bit = b; body = item })
      (stream-make_data_frame session s f w system body h)
      (w_bit-make_data_frame session s f w system body h)

decode_body-nil : (item : Item) → decode_body [] ≡ ok item → ⊥
unfolding decode_body decode_item decode_at decode_header take_bytes
decode_body-nil item h = ground arith

to_message-full :
    (session s f : ℕ) (w : Bool) (system b : ℕ) (bs : Bytes) (item : Item)
    → s < 128
    → decode_body (b ∷ bs) ≡ ok item
    → to_message (make_data_frame session s f w system (b ∷ bs))
      ≡ ok (record { stream = s; function = f; w_bit = w; body = some item })
unfolding to_message stype_code make_data_frame
to_message-full session s f w system b bs item h d =
    ap (λ r. r >>= λ i. ok (message_with (make_data_frame session s f w system (b ∷ bs)) (some i)))
      d
    ∙ ap ok (message_with-make_data_frame session s f w system (b ∷ bs) (some item) h)

-- A message with a body within the limits comes back from its data frame, its stream below 128, with
-- BOOLEAN elements as 0 or 1.
pub to_message-make_data_frame :
    (session s f : ℕ) (w : Bool) (system : ℕ) (item : Item)
    → s < 128
    → Encodable item 0
    → (body : Bytes) × (encode item ≡ ok body)
      × (to_message (make_data_frame session s f w system body)
          ≡ ok (record { stream = s; function = f; w_bit = w; body = some (normal item) }))
to_message-make_data_frame session s f w system item h fits =
    let (body, encoded, decoded) = decode_body-encode item fits in
    (body, encoded, full body decoded)
  where
    full :
        (body : Bytes)
        → decode_body body ≡ ok (normal item)
        → to_message (make_data_frame session s f w system body)
          ≡ ok (record { stream = s; function = f; w_bit = w; body = some (normal item) })
    full [] d = absurd (decode_body-nil (normal item) d)
    full (b ∷ bs) d = to_message-full session s f w system b bs (normal item) h d
