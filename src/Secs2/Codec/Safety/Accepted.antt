-- ===== src/Secs2/Codec/Safety/Accepted.antt =====
-- The bodies that the decoder of src/secsgem/secs2/codec.cpp accepts, whatever the bytes are.
use semiconductor_metrology.Base.{
  ℕ, zero, suc, ◌+◌, ◌/◌, ◌≤◌, ◌<◌, ◌≡◌, Result, ok, err, arith, length, All, ltb, Bool-cases, inl,
  inr,
}
use semiconductor_metrology.Secs2.BigEndian.{Bytes, IsByte}
use semiconductor_metrology.Secs2.Item.{Item, Items}
use semiconductor_metrology.Secs2.Codec.{
  Reader, decode_header, decode_items, decode_list, decode_payload, decode_at, remaining, encode,
  decode_item, decode_body, Decoded, max_nesting_depth,
}
use semiconductor_metrology.Secs2.Codec.RoundTrip.{Encodable, normal, decode_body-encode}
use semiconductor_metrology.Secs2.Codec.Safety.{
  Ensures, Ensures-bind, HeaderOf, decode_header-HeaderOf,
}
use semiconductor_metrology.Secs2.Codec.Safety.Bounds.{
  weight, ItemRead, ItemsRead, ReadsItem, decode_items-ItemsRead, decode_payload-ItemRead,
}

abbrev EntriesRead : ℕ → ℕ → Reader → Items × Reader → Type 0
EntriesRead depth len r x = ItemsRead (depth + 1) len r x × (depth < max_nesting_depth)

list_entries :
    (levels depth len : ℕ) (r : Reader)
    → depth + suc levels ≡ max_nesting_depth
    → All IsByte r.rest
    → ReadsItem (depth + 1) (decode_at levels)
    → Ensures (EntriesRead depth len r) (decode_list (decode_at levels) len r)
unfolding decode_list
list_entries levels depth len r e b c = elim (Bool-cases (ltb (remaining r / 2) len)) [
  | inl over ↦ rw over tt
  | inr fits ↦ rw fits (
      weaken (decode_items (decode_at levels) len r)
        (decode_items-ItemsRead (decode_at levels) (depth + 1) len r c b))
]
  where
    weaken :
        (m : Result (Items × Reader))
        → Ensures (ItemsRead (depth + 1) len r) m
        → Ensures (EntriesRead depth len r) m
    weaken (ok x) h = (h, omega arith)
    weaken (err x) h = tt

decode_at-ReadsItem :
    (levels depth : ℕ) → depth + levels ≡ max_nesting_depth → ReadsItem depth (decode_at levels)
unfolding decode_at
decode_at-ReadsItem zero depth e r h =
    Ensures-bind (HeaderOf r) (ItemRead depth r) (decode_header r) _ (decode_header-HeaderOf r h)
      (decode_payload-ItemRead _ depth r (λ len r₁ b. tt))
decode_at-ReadsItem (suc levels) depth e r h =
    Ensures-bind (HeaderOf r) (ItemRead depth r) (decode_header r)
      (decode_payload (decode_list (decode_at levels))) (decode_header-HeaderOf r h)
      (decode_payload-ItemRead (decode_list (decode_at levels)) depth r (λ len r₁ b.
        list_entries levels depth len r₁ e b
          (decode_at-ReadsItem levels (depth + 1) (omega arith))))

decode_item-Ensures :
    (bs : Bytes)
    → All IsByte bs
    → Ensures
        (λ d. Encodable d.item 0 × (weight d.item ≤ d.consumed) × (d.consumed ≤ length bs))
        (decode_item bs)
unfolding decode_item
decode_item-Ensures bs h =
    Ensures-bind (ItemRead 0 start) _ (decode_at max_nesting_depth start)
      (λ (item, r). ok (record { item = item; consumed = r.position }))
      (decode_at-ReadsItem max_nesting_depth 0 (omega arith) start h)
      λ (item, r) (t, e). (e, omega (arith, t.advanced), omega (arith, t.counted))
  where
    start : Reader
    start = record { rest = bs; position = 0 }

-- Whatever bytes come in, an item that is decoded keeps every limit of the encoder (nesting,
-- lengths, values in range), and its headers and data take up no more than the bytes consumed, so
-- that the input bounds what is allocated.
pub decode_item_bounds :
    (bs : Bytes) (d : Decoded)
    → All IsByte bs
    → decode_item bs ≡ ok d
    → Encodable d.item 0 × (weight d.item ≤ d.consumed) × (d.consumed ≤ length bs)
decode_item_bounds bs d h e = rw e at (decode_item-Ensures bs h)

decode_body-decode_item :
    (bs : Bytes) (item : Item)
    → decode_body bs ≡ ok item
    → decode_item bs ≡ ok (record { item = item; consumed = length bs })
unfolding decode_body
decode_body-decode_item bs item e = ground arith

-- A body that is accepted can be encoded again, and decodes to the same item (BOOLEAN elements as
-- 0 or 1).
pub decode_body_again :
    (bs : Bytes) (item : Item)
    → All IsByte bs
    → decode_body bs ≡ ok item
    → (bs' : Bytes) × (encode item ≡ ok bs') × (decode_body bs' ≡ ok (normal item))
decode_body_again bs item h e =
    decode_body-encode item (decode_item_bounds bs _ h (decode_body-decode_item bs item e)).0
