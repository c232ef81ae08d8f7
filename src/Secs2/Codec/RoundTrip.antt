-- ===== src/Secs2/Codec/RoundTrip.antt =====
-- Items within the limits through the encoder and the decoder of src/secsgem/secs2/codec.cpp.
use native.Mathlib.Nat.{zero-add}
use semiconductor_metrology.Base.{
  ℕ, zero, suc, ◌+◌, ◌*◌, ◌/◌, ◌^◌, ◌≤◌, ◌<◌, ◌≡◌, refl, ap, ◌∙◌, List, [], ◌++◌, false, Result, ok,
  arith, length, All, length-append, append_assoc, append-nil, le→not-ltb, lt→not-leb,
}
use semiconductor_metrology.Secs2.BigEndian.{Bytes}
use semiconductor_metrology.Secs2.Item.{
  Format, Item, Items, array, nil, cons, element_size, is_supported, is_list_format, count_items,
}
use semiconductor_metrology.Secs2.Codec.{
  Reader, decode_header, decode_array, decode_items, decode_list, decode_payload, decode_at,
  encode_values, encode_at_depth, encode_items, encode, decode_item, decode_body, max_nesting_depth,
  max_item_length,
}
use semiconductor_metrology.Secs2.Codec.Header.{at, decode-encode_header}
use semiconductor_metrology.Secs2.Codec.Arrays.{
  normal_values, IsArrayFormat, decode_array-encode_values,
}

-- An item that can stand at this depth: the values fit their type, and the limits are kept.
unfoldable mutual
  pub Encodable : Item → ℕ → Type 0
  Encodable (Item.list items) depth =
      (depth < max_nesting_depth)
      × (count_items items ≤ max_item_length)
      × EncodableItems items (depth + 1)
  Encodable (array f vs) depth =
      IsArrayFormat f
      × All (λ v. v < 256 ^ element_size f) vs
      × (length vs * element_size f ≤ max_item_length)

  pub EncodableItems : Items → ℕ → Type 0
  EncodableItems nil depth = Unit {0}
  EncodableItems (cons item items) depth = Encodable item depth × EncodableItems items depth

-- The item that comes back: the same, but that a true BOOLEAN element is 1.
unfoldable mutual
  pub normal : Item → Item
  normal (Item.list items) = Item.list (normal_items items)
  normal (array f vs) = array f (normal_values f vs)

  pub normal_items : Items → Items
  normal_items nil = nil
  normal_items (cons item items) = cons (normal item) (normal_items items)

-- `bs` is the encoding, of two bytes or more for each item, and `read` reads it off any input.
record Written {ℓ} {A : Type ℓ} (r : Result Bytes) (items : ℕ) (read : Reader → Result (A × Reader))
    (a : A) : Type ℓ where
  bytes : Bytes
  encoded : r ≡ ok bytes
  long : items * 2 ≤ length bytes
  decoded :
      (rest : Bytes) (pos : ℕ)
      → read (at (bytes ++ rest) pos) ≡ ok (a, at rest (pos + length bytes))

decode_at_array :
    (levels : ℕ) (r r' : Reader) (f : Format) (len : ℕ)
    → decode_header r ≡ ok (f, len, r')
    → is_list_format f ≡ false
    → decode_at levels r ≡ decode_array f len r'
unfolding decode_at decode_payload
decode_at_array zero r r' f len e h = rw e (rw h)
decode_at_array (suc levels) r r' f len e h = rw e (rw h)

decode_at_list :
    (levels : ℕ) (r r₁ : Reader) (n : ℕ) {items : Items} {r₂ : Reader}
    → decode_header r ≡ ok (Format.list, n, r₁)
    → n * 2 ≤ length r₁.rest
    → decode_items (decode_at levels) n r₁ ≡ ok (items, r₂)
    → decode_at (suc levels) r ≡ ok (Item.list items, r₂)
unfolding decode_at decode_payload decode_list is_list_format
decode_at_list levels r r₁ n e room d =
    rw e (rw (le→not-ltb (length r₁.rest / 2) n (omega arith)) (rw d))

position_append {ℓ} :
    {A : Type ℓ} (a : A) (hs vs rest : Bytes) (pos : ℕ)
    → let read : ℕ → Result (A × Reader) = λ n. ok (a, at rest n) in
      read (pos + length hs + length vs) ≡ read (pos + length (hs ++ vs))
position_append a hs vs rest pos =
    ap (λ (n : ℕ). ok (a, at rest n)) (omega (arith, length-append hs vs))

array-Written :
    (f : Format) (vs : List ℕ) (depth levels : ℕ)
    → Encodable (array f vs) depth
    → Written (encode_at_depth (array f vs) depth) 1 (decode_at levels) (normal (array f vs))
unfolding Encodable normal encode_at_depth
array-Written f vs depth levels (h, fits, short) =
    let (hs, e, two, dec) = decode-encode_header f (length vs * element_size f) h.supported short in
    let body = encode_values f vs in
    record {
      bytes = hs ++ body;
      encoded = rw (h.supported, e);
      long = omega (arith, length-append hs body, two);
      decoded = λ rest pos. rw (append_assoc hs body rest) (
          decode_at_array levels _ _ f _ (dec (body ++ rest) pos) h.no_list
          ∙ decode_array-encode_values f vs rest (pos + length hs) h fits
          ∙ position_append (array f (normal_values f vs)) hs body rest pos);
    }

list-Written :
    (items : Items) (depth levels : ℕ)
    → depth < max_nesting_depth
    → count_items items ≤ max_item_length
    → Written
        (encode_items items (depth + 1))
        (count_items items)
        (decode_items (decode_at levels) (count_items items))
        (normal_items items)
    → Written
        (encode_at_depth (Item.list items) depth)
        1
        (decode_at (suc levels))
        (normal (Item.list items))
unfolding normal encode_at_depth
list-Written items depth levels deep short w =
    let (hs, e, two, dec) =
      decode-encode_header Format.list (count_items items) (unfold is_supported in refl) short in
    record {
      bytes = hs ++ w.bytes;
      encoded = rw (lt→not-leb max_nesting_depth depth deep, e, w.encoded);
      long = omega (arith, length-append hs w.bytes, two);
      decoded = λ rest pos. rw (append_assoc hs w.bytes rest) (
          decode_at_list levels _ _ (count_items items) (dec (w.bytes ++ rest) pos)
            (omega (arith, length-append w.bytes rest, w.long)) (w.decoded rest (pos + length hs))
          ∙ position_append (Item.list (normal_items items)) hs w.bytes rest pos);
    }

nil-Written :
    (depth levels : ℕ)
    → Written
        (encode_items nil depth)
        (count_items nil)
        (decode_items (decode_at levels) (count_items nil))
        (normal_items nil)
unfolding normal encode_at_depth decode_items count_items
nil-Written depth levels = record {
  bytes = [];
  encoded = refl;
  long = omega arith;
  decoded = λ rest pos. ap (λ (n : ℕ). ok (nil, at rest n)) (omega arith);
}

items-cons-Written :
    (item : Item) (items : Items) (depth levels : ℕ)
    → Written (encode_at_depth item depth) 1 (decode_at levels) (normal item)
    → Written
        (encode_items items depth)
        (count_items items)
        (decode_items (decode_at levels) (count_items items))
        (normal_items items)
    → Written
        (encode_items (cons item items) depth)
        (count_items (cons item items))
        (decode_items (decode_at levels) (count_items (cons item items)))
        (normal_items (cons item items))
unfolding normal encode_at_depth decode_items count_items
items-cons-Written item items depth levels w ws = record {
  bytes = w.bytes ++ ws.bytes;
  encoded = rw (w.encoded, ws.encoded);
  long = omega (arith, length-append w.bytes ws.bytes, w.long, ws.long);
  decoded = λ rest pos.
      rw (append_assoc w.bytes ws.bytes rest, w.decoded (ws.bytes ++ rest) pos)
        (rw (ws.decoded rest (pos + length w.bytes))
          (position_append (cons (normal item) (normal_items items)) w.bytes ws.bytes rest pos));
}

mutual
  unfolding Encodable

  Item-Written :
      (item : Item) (depth levels : ℕ)
      → depth + levels ≡ max_nesting_depth
      → Encodable item depth
      → Written (encode_at_depth item depth) 1 (decode_at levels) (normal item)
  Item-Written (Item.list items) depth zero e h = absurd (omega (arith, h.0))
  Item-Written (Item.list items) depth (suc levels) e h =
      list-Written items depth levels h.0 h.1
        (Items-Written items (depth + 1) levels (omega arith) h.2)
  Item-Written (array f vs) depth levels e h = array-Written f vs depth levels h

  Items-Written :
      (items : Items) (depth levels : ℕ)
      → depth + levels ≡ max_nesting_depth
      → EncodableItems items depth
      → Written
          (encode_items items depth)
          (count_items items)
          (decode_items (decode_at levels) (count_items items))
          (normal_items items)
  Items-Written nil depth levels e h = nil-Written depth levels
  Items-Written (cons item items) depth levels e h =
      items-cons-Written item items depth levels (Item-Written item depth levels e h.0)
        (Items-Written items depth levels e h.1)

-- An item within the limits is encoded, and decoding the bytes, followed by anything, gives the
-- item back (its BOOLEAN elements as 0 or 1), with exactly those bytes consumed.
pub decode_item-encode :
    (item : Item) (rest : Bytes)
    → Encodable item 0
    → (bs : Bytes) × (encode item ≡ ok bs)
      × (decode_item (bs ++ rest) ≡ ok (record { item = normal item; consumed = length bs }))
unfolding encode decode_item
decode_item-encode item rest h =
    let w = Item-Written item 0 max_nesting_depth (omega arith) h in
    (w.bytes, w.encoded, rw (w.decoded rest 0, zero-add))

-- An item within the limits is encoded, and the bytes decode as a whole body to the item, its
-- BOOLEAN elements as 0 or 1.
pub decode_body-encode :
    (item : Item)
    → Encodable item 0
    → (bs : Bytes) × (encode item ≡ ok bs) × (decode_body bs ≡ ok (normal item))
unfolding decode_body
decode_body-encode item h =
    let (bs, e, d) = decode_item-encode item [] h in (bs, e, ground (arith, d, append-nil bs))
