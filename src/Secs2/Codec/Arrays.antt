-- ===== src/Secs2/Codec/Arrays.antt =====
-- Array items of src/secsgem/secs2/codec.cpp: elements to bytes and back.
use native.Mathlib.Nat.{mul-div_cancel, mul-mod_left}
use semiconductor_metrology.Base.{
  ℕ, suc, ◌+◌, ◌*◌, ◌/◌, ◌%◌, ◌^◌, ◌<◌, ◌≡◌, refl, ap, ap₂, ◌∙◌, List, [], ◌∷◌, ◌++◌, map, true,
  false, ok, arith, length, All, take, drop, length-append, take-length_append, drop-length_append,
}
use semiconductor_metrology.Secs2.BigEndian.{load_be, store_be, length-store_be, load_be-store_be}
use semiconductor_metrology.Secs2.Item.{
  Format, array, boolean, element_size, is_supported, is_list_format,
}
use semiconductor_metrology.Secs2.Codec.{
  collect, build_array, decode_array, append_array, encode_values, truth,
}
use semiconductor_metrology.Secs2.Codec.Header.{at, take_bytes-append}

-- What the decoder gives back for an array: a BOOLEAN element is sent as 0 or 1.
unfoldable pub normal_values : Format → List ℕ → List ℕ
normal_values boolean vs = map truth vs
normal_values _ vs = vs

-- The formats whose items are arrays on the wire.
pub record IsArrayFormat (f : Format) : Type 0 where
  pub supported : is_supported f ≡ true
  pub no_list : is_list_format f ≡ false

length-append_array : (w : ℕ) (vs : List ℕ) → length (append_array w vs) ≡ length vs * w
unfolding append_array
length-append_array w [] = omega arith
length-append_array w (v ∷ vs) = omega (
  arith,
  length-append (store_be w v) (append_array w vs),
  length-store_be w v,
  length-append_array w vs,
)

collect-append_array :
    (w : ℕ) (vs : List ℕ)
    → All (λ v. v < 256 ^ w) vs
    → collect w (length vs) (append_array w vs) ≡ vs
unfolding collect append_array
collect-append_array w [] h = refl
collect-append_array w (v ∷ vs) h =
    ap₂ ◌∷◌ (ap (load_be w) front ∙ load_be-store_be w v h.0)
      (ap (collect w (length vs)) back ∙ collect-append_array w vs h.1)
  where
    front : take w (store_be w v ++ append_array w vs) ≡ store_be w v
    front = rw (length-store_be w v) at (take-length_append (store_be w v) (append_array w vs))

    back : drop w (store_be w v ++ append_array w vs) ≡ append_array w vs
    back = rw (length-store_be w v) at (drop-length_append (store_be w v) (append_array w vs))

length-map-truth : (vs : List ℕ) → length (map truth vs) ≡ length vs
length-map-truth [] = refl
length-map-truth (v ∷ vs) = ap suc (length-map-truth vs)

pub length-encode_values :
    (f : Format) (vs : List ℕ)
    → IsArrayFormat f
    → length (encode_values f vs) ≡ length vs * element_size f
unfolding encode_values element_size is_supported is_list_format
length-encode_values Format.list vs h = absurd (ground (arith, h.no_list))
length-encode_values Format.jis8 vs h = absurd (ground (arith, h.supported))
length-encode_values boolean vs h = omega (arith, length-map-truth vs)
length-encode_values Format.ascii vs h = omega arith
length-encode_values Format.binary vs h = omega arith
length-encode_values Format.u1 vs h = omega arith
length-encode_values _ vs h = length-append_array _ vs

wide :
    (f : Format) (w : ℕ) (vs : List ℕ)
    → 0 < w
    → All (λ v. v < 256 ^ w) vs
    → array f (collect w (length (append_array w vs) / w) (append_array w vs)) ≡ array f vs
wide f w vs pos h =
    ap (array f)
      (rw (length-append_array w vs, mul-div_cancel (length vs) pos) (collect-append_array w vs h))

build-encode_values :
    (f : Format) (vs : List ℕ)
    → IsArrayFormat f
    → All (λ v. v < 256 ^ element_size f) vs
    → build_array f (encode_values f vs) ≡ array f (normal_values f vs)
unfolding build_array encode_values normal_values is_supported is_list_format
build-encode_values Format.list vs h fits = absurd (ground (arith, h.no_list))
build-encode_values Format.jis8 vs h fits = absurd (ground (arith, h.supported))
build-encode_values boolean vs h fits = refl
build-encode_values Format.ascii vs h fits = refl
build-encode_values Format.binary vs h fits = refl
build-encode_values Format.u1 vs h fits = refl
build-encode_values f vs h fits = wide f (element_size f) vs (omega arith) fits

element_size_pos : (f : Format) → IsArrayFormat f → 0 < element_size f
unfolding element_size is_list_format
element_size_pos Format.list h = absurd (ground (arith, h.no_list))
element_size_pos _ h = omega arith

-- The bytes of an array, followed by anything, decode to the array.
pub decode_array-encode_values :
    (f : Format) (vs rest : List ℕ) (pos : ℕ)
    → IsArrayFormat f
    → All (λ v. v < 256 ^ element_size f) vs
    → decode_array f (length vs * element_size f) (at (encode_values f vs ++ rest) pos)
      ≡ ok (array f (normal_values f vs), at rest (pos + length (encode_values f vs)))
unfolding decode_array
decode_array-encode_values f vs rest pos h fits = rw (← length-encode_values f vs h) (
    ground (
      arith,
      take_bytes-append (encode_values f vs) rest pos,
      length-append (encode_values f vs) rest,
      length-encode_values f vs h,
      whole,
      build-encode_values f vs h fits,
    ))
  where
    whole : length (encode_values f vs) % element_size f ≡ 0
    whole = rw (length-encode_values f vs h) (mul-mod_left (length vs) (element_size f))
