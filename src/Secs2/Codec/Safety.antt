-- ===== src/Secs2/Codec/Safety.antt =====
-- What the decoder of src/secsgem/secs2/codec.cpp accepts, on any bytes.
pub mod Bounds
pub mod Accepted
use native.Mathlib.Nat.{pow-le-pow_right, div-mul_cancel, mod-eq-zero_of_dvd, div-add-mod}
use semiconductor_metrology.Base.{
  ℕ, String, zero, suc, ◌+◌, ◌-◌, ◌*◌, ◌/◌, ◌%◌, ◌^◌, ◌≤◌, ◌<◌, ◌≡◌, refl, ap, sym, ◌∙◌, List, [],
  ◌∷◌, ◌++◌, Bool, true, false, Option, none, some, Result, ok, err, fail, fail_if, or_fail, arith,
  length, All, All-take, All-drop, take, drop, length-take_le, length-drop, ltb, leb, ltb_false→le,
  if◌then◌else◌, ◌==◌, ◌>>=◌, ◌>>◌, Bool-cases, inl, inr, not, ==_iff,
}
use semiconductor_metrology.Secs2.BigEndian.{Bytes, IsByte, load_be, load_be-lt, load_be-lt_length}
use semiconductor_metrology.Secs2.Item.{
  Format, Item, Items, array, nil, cons, element_size, is_supported, is_list_format, count_items,
}
use semiconductor_metrology.Secs2.Codec.{
  Reader, take_bytes, parse_format, collect, is_plain, build_array, decode_header, decode_array,
  decode_items, decode_list, decode_payload, decode_at, first, encode, decode_item, decode_body,
  Decoded, max_nesting_depth, max_item_length, err_truncated, err_bad_length_bytes,
}
use semiconductor_metrology.Secs2.Codec.Arrays.{IsArrayFormat}
use semiconductor_metrology.Secs2.Codec.RoundTrip.{
  Encodable, EncodableItems, normal, decode_body-encode,
}

-- `P` holds of the result, if there is one.
abbrev pub Ensures {ℓ κ} : {A : Type ℓ} → (A → Type κ) → Result A → Type κ
Ensures P (ok a) = P a
Ensures P (err e) = Unit

Ensures-bind {ℓ κ ℓ' κ'} :
    {A : Type ℓ} {B : Type ℓ'} (P : A → Type κ) (Q : B → Type κ') (m : Result A) (f : A → Result B)
    → Ensures P m
    → ((a : A) → P a → Ensures Q (f a))
    → Ensures Q (m >>= f)
Ensures-bind P Q (ok a) f h k = k a h
Ensures-bind P Q (err e) f h k = tt

-- `r'` is `r` after at least `k` bytes were taken.
pub record Took (k : ℕ) (r r' : Reader) : Type 0 where
  pub counted : r'.position + length r'.rest ≡ r.position + length r.rest
  pub advanced : r.position + k ≤ r'.position
  pub bytes : All IsByte r'.rest

fail_if-Ensures : (b : Bool) (c : ℕ) (m : String) → Ensures (λ _. b ≡ false) (fail_if b c m)
fail_if-Ensures true c m = tt
fail_if-Ensures false c m = refl

-- `xs` are the `n` bytes taken.
abbrev Taken : ℕ → Reader → Bytes × Reader → Type 0
Taken n r (xs, r') = Took n r r' × (length xs ≡ n) × All IsByte xs

take_bytes-Taken :
    (n : ℕ) (r : Reader) (c : ℕ) (m : String)
    → All IsByte r.rest
    → Ensures (Taken n r) (or_fail (take_bytes n r) c m)
unfolding take_bytes
take_bytes-Taken n r c m h = elim (Bool-cases (ltb (length r.rest) n)) [
  | inl e ↦ rw e tt
  | inr e ↦ rw e (
    record {
      counted = omega (arith, length-drop n r.rest, ltb_false→le (length r.rest) n e);
      advanced = omega arith;
      bytes = All-drop IsByte n r.rest h;
    },
    length-take_le n r.rest (ltb_false→le (length r.rest) n e),
    All-take IsByte n r.rest h,
  )
]

Took-trans : {j k n : ℕ} {r r₁ r₂ : Reader} → Took j r r₁ → Took k r₁ r₂ → n ≤ j + k → Took n r r₂
Took-trans a b h = record {
  counted = b.counted ∙ a.counted;
  advanced = omega (arith, a.advanced, b.advanced);
  bytes = b.bytes;
}

parse_format-supported : (code : ℕ) → Ensures (λ f. is_supported f ≡ true) (parse_format code)
unfolding parse_format is_supported
parse_format-supported code = ground arith

abbrev pub HeaderOf : Reader → Format × ℕ × Reader → Type 0
HeaderOf r (f, len, r') = Took 2 r r' × (is_supported f ≡ true) × (len ≤ max_item_length)

length_bound :
    (field : Bytes) → All IsByte field → length field ≤ 3 → load_be 8 field ≤ max_item_length
length_bound field h le =
    omega (
      arith,
      load_be-lt_length 8 field h (omega arith),
      pow-le-pow_right {n = 256} (omega arith) le,
    )

decode_header-HeaderOf : (r : Reader) → All IsByte r.rest → Ensures (HeaderOf r) (decode_header r)
unfolding decode_header
decode_header-HeaderOf r h =
    Ensures-bind (Taken 1 r) (HeaderOf r) (or_fail (take_bytes 1 r) _ _) _
      (take_bytes-Taken 1 r _ _ h)
      λ (hd, r₁) (t₁, _, _).
        Ensures-bind (λ _. (first hd % 4 == 0) ≡ false) (HeaderOf r)
          (fail_if (first hd % 4 == 0) err_bad_length_bytes "item header has zero length bytes") _
          (fail_if-Ensures _ _ _)
          λ _ nonzero.
            Ensures-bind (λ f. is_supported f ≡ true) (HeaderOf r) (parse_format _) _
              (parse_format-supported _)
              λ f s.
                Ensures-bind (Taken (first hd % 4) r₁) (HeaderOf r)
                  (or_fail (take_bytes (first hd % 4) r₁) err_truncated "item length is cut off")
                  (λ (field, r₂). ok (f, load_be 8 field, r₂)) (take_bytes-Taken _ r₁ _ _ t₁.bytes)
                  λ (field, r₂) (t₂, n, b).
                    (Took-trans t₁ t₂ (ground arith), s, length_bound field b (omega arith))
