-- ===== src/Secs2/Codec/Safety/Bounds.antt =====
-- The items that the decoder of src/secsgem/secs2/codec.cpp accepts: their limits and their size.
use native.Mathlib.Nat.{div-add-mod}
use semiconductor_metrology.Base.{
  ℕ, String, zero, suc, ◌+◌, ◌*◌, ◌/◌, ◌%◌, ◌^◌, ◌≤◌, ◌<◌, ◌≡◌, refl, ap, true, false, Result, ok,
  fail_if, or_fail, arith, length, All, ltb, ◌==◌, Bool-cases, inl, inr, not, take, drop,
}
use semiconductor_metrology.Secs2.BigEndian.{Bytes, IsByte, load_be-lt}
use semiconductor_metrology.Secs2.Item.{
  Format, Item, Items, array, nil, cons, element_size, is_supported, is_list_format, count_items,
}
use semiconductor_metrology.Secs2.Codec.{
  Reader, take_bytes, collect, build_array, decode_array, decode_items, decode_payload, remaining,
  max_nesting_depth, max_item_length, err_truncated, err_bad_length,
}
use semiconductor_metrology.Secs2.Codec.Arrays.{IsArrayFormat}
use semiconductor_metrology.Secs2.Codec.RoundTrip.{Encodable, EncodableItems}
use semiconductor_metrology.Secs2.Codec.Safety.{
  Ensures, Ensures-bind, Took, Took-trans, Taken, take_bytes-Taken, fail_if-Ensures, HeaderOf,
}

-- The bytes that an item stands for: two for each header at least, and its data.
unfoldable mutual
  pub weight : Item → ℕ
  weight (Item.list items) = 2 + weight_items items
  weight (array f vs) = 2 + length vs * element_size f

  pub weight_items : Items → ℕ
  weight_items nil = 0
  weight_items (cons item items) = weight item + weight_items items

length-collect : (w n : ℕ) (bs : Bytes) → length (collect w n bs) ≡ n
unfolding collect
length-collect w zero bs = refl
length-collect w (suc n) bs = ap suc (length-collect w n (drop w bs))

collect-fits : (w n : ℕ) (bs : Bytes) → All (λ v. v < 256 ^ w) (collect w n bs)
unfolding collect
collect-fits w zero bs = tt
collect-fits w (suc n) bs = (load_be-lt w (take w bs), collect-fits w n (drop w bs))

-- An item read from `len` data bytes.
record FromBytes (len : ℕ) (item : Item) : Type 0 where
  light : weight item ≡ 2 + len
  legal : (depth : ℕ) → Encodable item depth

plain-FromBytes :
    (f : Format) (bs : Bytes)
    → IsArrayFormat f
    → element_size f ≡ 1
    → All IsByte bs
    → length bs ≤ max_item_length
    → FromBytes (length bs) (array f bs)
unfolding weight Encodable
plain-FromBytes f bs h one b le = record {
  light = rw one (omega arith);
  legal = λ depth. (h, rw one b, rw one (omega arith));
}

whole_elements : (n w : ℕ) → n % w ≡ 0 → n / w * w ≡ n
whole_elements n w e = omega (arith, div-add-mod n w)

wide-FromBytes :
    (f : Format) (bs : Bytes)
    → IsArrayFormat f
    → length bs % element_size f ≡ 0
    → length bs ≤ max_item_length
    → FromBytes (length bs) (array f (collect (element_size f) (length bs / element_size f) bs))
unfolding weight Encodable
wide-FromBytes f bs h e le =
    let n = length-collect (element_size f) (length bs / element_size f) bs in
    let whole = whole_elements (length bs) (element_size f) e in
    record { light = rw (n, whole); legal = λ depth. (h, collect-fits _ _ bs, rw (n, whole) le) }

build_array-FromBytes :
    (f : Format) (bs : Bytes)
    → IsArrayFormat f
    → All IsByte bs
    → length bs % element_size f ≡ 0
    → length bs ≤ max_item_length
    → FromBytes (length bs) (build_array f bs)
unfolding build_array is_supported is_list_format
build_array-FromBytes Format.list bs h b e le = absurd (ground (arith, h.no_list))
build_array-FromBytes Format.jis8 bs h b e le = absurd (ground (arith, h.supported))
build_array-FromBytes Format.binary bs h b e le = plain-FromBytes _ bs h refl b le
build_array-FromBytes Format.boolean bs h b e le = plain-FromBytes _ bs h refl b le
build_array-FromBytes Format.ascii bs h b e le = plain-FromBytes _ bs h refl b le
build_array-FromBytes Format.u1 bs h b e le = plain-FromBytes _ bs h refl b le
build_array-FromBytes f bs h b e le = wide-FromBytes f bs h e le

-- `r'` is left after an item, of no more weight than the bytes taken, that fits at this depth.
abbrev pub ItemRead : ℕ → Reader → Item × Reader → Type 0
ItemRead depth r (item, r') = Took (weight item) r r' × Encodable item depth

abbrev pub ItemsRead : ℕ → ℕ → Reader → Items × Reader → Type 0
ItemsRead depth n r (items, r') =
    Took (weight_items items) r r' × EncodableItems items depth × (count_items items ≡ n)

decode_array-ItemRead :
    (f : Format) (len depth : ℕ) (r₀ r : Reader)
    → IsArrayFormat f
    → len ≤ max_item_length
    → Took 2 r₀ r
    → Ensures (ItemRead depth r₀) (decode_array f len r)
unfolding decode_array
decode_array-ItemRead f len depth r₀ r h le t =
    Ensures-bind (λ _. Unit {0}) Q (fail_if (ltb (remaining r) len) err_truncated cut_off) _
      (elim (ltb (remaining r) len)
        as (λ b. Ensures (λ _. Unit {0}) (fail_if b err_truncated cut_off)) [
          | true ↦ tt
          | false ↦ tt
        ])
      λ _ _.
        Ensures-bind (λ _. not (len % element_size f == 0) ≡ false) Q
          (fail_if (not (len % element_size f == 0)) err_bad_length
            "item length is not a multiple of its element size")
          _ (fail_if-Ensures _ _ _)
          λ _ whole.
            Ensures-bind (Taken len r) Q (or_fail (take_bytes len r) err_truncated cut_off)
              (λ (bs, r₁). ok (build_array f bs, r₁)) (take_bytes-Taken len r _ _ t.bytes)
              λ (bs, r₁) (t₁, n, b).
                let built =
                  build_array-FromBytes f bs h b (rw n (ground (arith, whole))) (omega arith) in
                (Took-trans t t₁ (omega (arith, built.light)), built.legal depth)
  where
    Q : Item × Reader → Type 0
    Q = ItemRead depth r₀

    cut_off : String
    cut_off = "item data is cut off"

-- What a decoder of one entry guarantees, at a depth.
abbrev pub ReadsItem : ℕ → (Reader → Result (Item × Reader)) → Type 0
ReadsItem depth child = (r : Reader) → All IsByte r.rest → Ensures (ItemRead depth r) (child r)

pub decode_items-ItemsRead :
    (child : Reader → Result (Item × Reader)) (depth n : ℕ) (r : Reader)
    → ReadsItem depth child
    → All IsByte r.rest
    → Ensures (ItemsRead depth n r) (decode_items child n r)
unfolding decode_items weight Encodable count_items
decode_items-ItemsRead child depth zero r c h =
    (record { counted = refl; advanced = omega arith; bytes = h }, tt, refl)
decode_items-ItemsRead child depth (suc n) r c h =
    Ensures-bind (ItemRead depth r) (ItemsRead depth (suc n) r) (child r) _ (c r h)
      λ (item, r₁) (t₁, e₁).
        Ensures-bind (ItemsRead depth n r₁) (ItemsRead depth (suc n) r) (decode_items child n r₁)
          (λ (items, r₂). ok (cons item items, r₂))
          (decode_items-ItemsRead child depth n r₁ c t₁.bytes)
          λ (items, r₂) (t₂, e₂, k). (Took-trans t₁ t₂ (omega arith), (e₁, e₂), ap suc k)

pub decode_payload-ItemRead :
    (entries : ℕ → Reader → Result (Items × Reader)) (depth : ℕ) (r₀ : Reader)
    → ((len : ℕ) (r : Reader)
        → All IsByte r.rest
        → Ensures
            (λ x. ItemsRead (depth + 1) len r x × (depth < max_nesting_depth))
            (entries len r))
    → (h : Format × ℕ × Reader) → HeaderOf r₀ h
    → Ensures (ItemRead depth r₀) (decode_payload entries h)
unfolding decode_payload weight Encodable
decode_payload-ItemRead entries depth r₀ c (f, len, r) (t, s, le) =
    elim (Bool-cases (is_list_format f)) [
      | inl is_list ↦ rw is_list (
          Ensures-bind (λ x. ItemsRead (depth + 1) len r x × (depth < max_nesting_depth))
            (ItemRead depth r₀) (entries len r) (λ (items, r₁). ok (Item.list items, r₁))
            (c len r t.bytes)
            λ (items, r₁) ((t₁, e, k), deep). (Took-trans t t₁ (omega arith), (deep, rw k le, e)))
      | inr no_list ↦ rw no_list (
          decode_array-ItemRead f len depth r₀ r (record { supported = s; no_list = no_list }) le t)
    ]
