-- ===== src/Secs2/Codec.antt =====
-- The SECS-II codec (include/ssim/secsgem/secs2/codec.hpp, src/secsgem/secs2/codec.cpp). The
-- encoder returns the bytes that the source appends to `out`; where it fails the source discards
-- them. The decoder recurs on the list levels that are still allowed, kMaxNestingDepth - depth.
pub mod Header
pub mod Arrays
pub mod RoundTrip
pub mod Safety
use semiconductor_metrology.Base.{
  ℕ, zero, suc, String, ◌+◌, ◌-◌, ◌*◌, ◌/◌, ◌%◌, ◌^◌, Bool, true, false, not, List, [], ◌∷◌, ◌++◌,
  map, Option, none, some, Result, ok, fail, fail_if, or_fail, ◌>>=◌, ◌>>◌, if◌then◌else◌, ltb, leb,
  ◌==◌, length, take, drop,
}
use semiconductor_metrology.Secs2.BigEndian.{Bytes, load_be, store_be}
use semiconductor_metrology.Secs2.Item.{
  Format, Item, Items, array, nil, cons, binary, boolean, ascii, jis8, i8, i1, i2, i4, f8, f4, u8,
  u1, u2, u4, format_code, element_size, is_supported, is_list_format, count_items,
}

abbrev pub max_nesting_depth : ℕ
max_nesting_depth = 32

abbrev pub max_item_length : ℕ
max_item_length = 0xff_ffff

abbrev pub err_truncated : ℕ
err_truncated = 300

abbrev pub err_bad_length_bytes : ℕ
err_bad_length_bytes = 301

abbrev pub err_unsupported_format : ℕ
err_unsupported_format = 302

abbrev pub err_bad_length : ℕ
err_bad_length = 303

abbrev pub err_list_count_too_large : ℕ
err_list_count_too_large = 304

abbrev pub err_too_deep : ℕ
err_too_deep = 305

abbrev pub err_trailing_bytes : ℕ
err_trailing_bytes = 306

abbrev pub err_too_long : ℕ
err_too_long = 307

-- The bytes that are left, and how many were taken.
pub record Reader : Type 0 where
  pub rest : Bytes
  pub position : ℕ

abbrev pub remaining : Reader → ℕ
remaining r = length r.rest

-- Reader::take; `none` is the null pointer.
unfoldable pub take_bytes : ℕ → Reader → Option (Bytes × Reader)
take_bytes n r =
    if ltb (remaining r) n
    then none
    else some (take n r.rest, record { rest = drop n r.rest; position = r.position + n })

unfoldable pub parse_format : ℕ → Result Format
parse_format code =
    if code == 0x00
    then ok Format.list
    else if code == 0x08
    then ok binary
    else if code == 0x09
    then ok boolean
    else if code == 0x10
    then ok ascii
    else if code == 0x18
    then ok i8
    else if code == 0x19
    then ok i1
    else if code == 0x1a
    then ok i2
    else if code == 0x1c
    then ok i4
    else if code == 0x20
    then ok f8
    else if code == 0x24
    then ok f4
    else if code == 0x28
    then ok u8
    else if code == 0x29
    then ok u1
    else if code == 0x2a
    then ok u2
    else if code == 0x2c
    then ok u4
    else if code == 0x11
    then fail err_unsupported_format "JIS-8 items are not supported"
    else fail err_unsupported_format "unknown SECS-II format code"

-- `values.push_back(element_from_bytes<T>(p + i * sizeof(T)))`, n times.
unfoldable pub collect : ℕ → ℕ → Bytes → List ℕ
collect w zero bs = []
collect w (suc n) bs = load_be w (take w bs) ∷ collect w n (drop w bs)

-- Are the bytes themselves the elements?
unfoldable pub is_plain : Format → Bool
is_plain binary = true
is_plain boolean = true
is_plain ascii = true
is_plain u1 = true
is_plain _ = false

unfoldable pub build_array : Format → Bytes → Item
unfolding is_plain element_size
build_array Format.list bs = Item.list nil
build_array jis8 bs = Item.list nil
build_array f bs =
    if is_plain f
    then array f bs
    else array f (collect (element_size f) (length bs / element_size f) bs)

abbrev first : Bytes → ℕ
first [] = 0
first (b ∷ bs) = b

-- The format byte and the length.
unfoldable pub decode_header : Reader → Result (Format × ℕ × Reader)
decode_header r = do
  (header, r₁) ← or_fail (take_bytes 1 r) err_truncated "no item header"
  let format_byte = first header
  let length_bytes = format_byte % 4
  fail_if (length_bytes == 0) err_bad_length_bytes "item header has zero length bytes"
  format ← parse_format (format_byte / 4)
  (field, r₂) ← or_fail (take_bytes length_bytes r₁) err_truncated "item length is cut off"
  ok (format, load_be 8 field, r₂)

-- The second `take` cannot fail after the first test.
unfoldable pub decode_array : Format → ℕ → Reader → Result (Item × Reader)
decode_array f len r = do
  fail_if (ltb (remaining r) len) err_truncated "item data is cut off"
  fail_if (not (len % element_size f == 0)) err_bad_length
      "item length is not a multiple of its element size"
  (bs, r₁) ← or_fail (take_bytes len r) err_truncated "item data is cut off"
  ok (build_array f bs, r₁)

-- The loop over the entries of a list; `child` decodes one, a level deeper.
unfoldable pub decode_items :
    (Reader → Result (Item × Reader)) → ℕ → Reader → Result (Items × Reader)
decode_items child zero r = ok (nil, r)
decode_items child (suc n) r = do
  (item, r₁) ← child r
  (items, r₂) ← decode_items child n r₁
  ok (cons item items, r₂)

unfoldable pub decode_list :
    (Reader → Result (Item × Reader)) → ℕ → Reader → Result (Items × Reader)
decode_list child len r = do
  fail_if (ltb (remaining r / 2) len) err_list_count_too_large
      "list count exceeds the bytes that remain"
  decode_items child len r

unfoldable pub decode_payload :
    (ℕ → Reader → Result (Items × Reader)) → Format × ℕ × Reader → Result (Item × Reader)
decode_payload entries (f, len, r) =
    if is_list_format f
    then (entries len r >>= λ (items, r₁). ok (Item.list items, r₁))
    else decode_array f len r

-- decode_at_depth, with the levels that are left.
unfoldable pub decode_at : ℕ → Reader → Result (Item × Reader)
decode_at zero r =
    decode_header r >>= decode_payload (λ len r. fail err_too_deep "list nesting deeper than 32")
decode_at (suc levels) r = decode_header r >>= decode_payload (decode_list (decode_at levels))

unfoldable pub encode_header : Format → ℕ → Result Bytes
encode_header f len =
    let length_bytes = if ltb 0xffff len then 3 else if ltb 0xff len then 2 else 1 in
    if ltb max_item_length len
    then fail err_too_long "item too long for three length bytes"
    else ok ((format_code f * 4 + length_bytes) % 256 ∷ store_be length_bytes len)

unfoldable pub append_array : ℕ → List ℕ → Bytes
append_array w [] = []
append_array w (v ∷ vs) = store_be w v ++ append_array w vs

-- `b != 0 ? 1 : 0`
abbrev pub truth : ℕ → ℕ
truth b = if b == 0 then 0 else 1

unfoldable pub encode_values : Format → List ℕ → Bytes
unfolding element_size
encode_values ascii vs = vs
encode_values binary vs = vs
encode_values u1 vs = vs
encode_values boolean vs = map truth vs
encode_values Format.list vs = []
encode_values jis8 vs = []
encode_values f vs = append_array (element_size f) vs

unfoldable mutual
  pub encode_at_depth : Item → ℕ → Result Bytes
  encode_at_depth (Item.list items) depth = do
    fail_if (leb max_nesting_depth depth) err_too_deep "list nesting deeper than 32"
    header ← encode_header Format.list (count_items items)
    body ← encode_items items (depth + 1)
    ok (header ++ body)
  encode_at_depth (array f vs) depth = do
    fail_if (not (is_supported f)) err_unsupported_format "cannot encode this format"
    header ← encode_header f (length vs * element_size f)
    ok (header ++ encode_values f vs)

  pub encode_items : Items → ℕ → Result Bytes
  encode_items nil depth = ok []
  encode_items (cons item items) depth = do
    entry ← encode_at_depth item depth
    more ← encode_items items depth
    ok (entry ++ more)

unfoldable pub encode : Item → Result Bytes
encode item = encode_at_depth item 0

pub record Decoded : Type 0 where
  pub item : Item
  pub consumed : ℕ

unfoldable pub decode_item : Bytes → Result Decoded
decode_item bytes = do
  (item, r) ← decode_at max_nesting_depth (record { rest = bytes; position = 0 })
  ok (record { item = item; consumed = r.position })

unfoldable pub decode_body : Bytes → Result Item
unfolding decode_item
decode_body bytes = do
  decoded ← decode_item bytes
  fail_if (not (decoded.consumed == length bytes)) err_trailing_bytes "bytes left after the item"
  ok decoded.item
