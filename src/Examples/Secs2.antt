-- ===== src/Examples/Secs2.antt =====
-- The theorems about src/secsgem/secs2 and src/secsgem/hsms/data_message.cpp at concrete inputs.
use semiconductor_metrology.Base.{◌≤◌, ◌≡◌, refl, [], ◌∷◌, ◌++◌, ok, arith, length, true, some}
use semiconductor_metrology.Secs2.BigEndian.{Bytes, load_be}
use semiconductor_metrology.Secs2.Item.{
  Item, array, nil, cons, u4, ascii, boolean, is_supported, is_list_format, element_size,
  count_items,
}
use semiconductor_metrology.Secs2.Codec.{
  encode, decode_item, decode_body, decode_at, parse_format, take_bytes, build_array, decode_header,
  decode_array, decode_payload,
}
use semiconductor_metrology.Secs2.Codec.RoundTrip.{
  Encodable, normal, decode_item-encode, decode_body-encode,
}
use semiconductor_metrology.Hsms.Frame.{make_data_frame}
use semiconductor_metrology.Hsms.DataMessage.{to_message}
use semiconductor_metrology.Hsms.DataMessage.RoundTrip.{to_message-make_data_frame}
use semiconductor_metrology.Secs2.Codec.Safety.Bounds.{weight}
use semiconductor_metrology.Secs2.Codec.Safety.Accepted.{decode_item_bounds, decode_body_again}

-- <L [2] <U4 2005> <L [1] <BOOLEAN 7>>>
abbrev sample : Item
sample =
    Item.list
      (cons (array u4 (2005 ∷ [])) (cons (Item.list (cons (array boolean (7 ∷ [])) nil)) nil))

sample-Encodable : Encodable sample 0
unfolding Encodable is_supported is_list_format element_size count_items
sample-Encodable = (
  omega arith,
  omega arith,
  (
    (record { supported = refl; no_list = refl }, omega arith, omega arith),
    (
      (
        omega arith,
        omega arith,
        ((record { supported = refl; no_list = refl }, omega arith, omega arith), tt),
      ),
      tt,
    ),
  ),
)

decode_body-encode_example :
    (bs : Bytes) × (encode sample ≡ ok bs) × (decode_body bs ≡ ok (normal sample))
decode_body-encode_example = decode_body-encode sample sample-Encodable

decode_item-encode_example :
    (bs : Bytes) × (encode sample ≡ ok bs)
    × (decode_item (bs ++ 1 ∷ 2 ∷ []) ≡ ok (record { item = normal sample; consumed = length bs }))
decode_item-encode_example = decode_item-encode sample (1 ∷ 2 ∷ []) sample-Encodable

-- <A "OK">
abbrev text_body : Bytes
text_body = 0x41 ∷ 2 ∷ b'O' ∷ b'K' ∷ []

decode_item_bounds_example :
    Encodable (array ascii (b'O' ∷ b'K' ∷ [])) 0
    × (weight (array ascii (b'O' ∷ b'K' ∷ [])) ≤ 4)
    × (4 ≤ length text_body)
unfolding decode_item decode_at decode_payload decode_header decode_array take_bytes parse_format
    build_array load_be is_list_format
decode_item_bounds_example =
    decode_item_bounds text_body (record { item = array ascii (b'O' ∷ b'K' ∷ []); consumed = 4 })
      (omega arith) refl

decode_body_again_example :
    (bs : Bytes) × (encode (array ascii (b'O' ∷ b'K' ∷ [])) ≡ ok bs)
    × (decode_body bs ≡ ok (normal (array ascii (b'O' ∷ b'K' ∷ []))))
unfolding decode_body decode_at decode_payload decode_header decode_array take_bytes parse_format
    build_array load_be is_list_format
decode_body_again_example =
    decode_body_again text_body (array ascii (b'O' ∷ b'K' ∷ [])) (omega arith) refl

-- The sample in an S6F11 that expects a reply.
to_message-make_data_frame_example :
    (body : Bytes) × (encode sample ≡ ok body)
    × (to_message (make_data_frame 0 6 11 true 7 body)
        ≡ ok (record { stream = 6; function = 11; w_bit = true; body = some (normal sample) }))
to_message-make_data_frame_example =
    to_message-make_data_frame 0 6 11 true 7 sample (omega arith) sample-Encodable
