-- ===== src/Secs2/Codec/Header.antt =====
-- Item headers of src/secsgem/secs2/codec.cpp, written and read.
use semiconductor_metrology.Base.{
  ℕ, ◌+◌, ◌*◌, ◌/◌, ◌%◌, ◌^◌, ◌≤◌, ◌<◌, ◌≡◌, refl, ap, ◌∙◌, [], ◌∷◌, ◌++◌, true, some, ok, arith,
  length, length-append, take-length_append, drop-length_append, ltb, le→not-ltb, Bool-cases, inl,
  inr, ltb_false→le,
}
use semiconductor_metrology.Secs2.BigEndian.{Bytes, store_be, length-store_be, load_be-store_be_le}
use semiconductor_metrology.Secs2.Item.{Format, format_code, is_supported}
use semiconductor_metrology.Secs2.Codec.{
  Reader, take_bytes, parse_format, decode_header, encode_header, max_item_length,
}

abbrev pub at : Bytes → ℕ → Reader
at bs pos = record { rest = bs; position = pos }

pub take_bytes-append :
    (xs rest : Bytes) (pos : ℕ)
    → take_bytes (length xs) (at (xs ++ rest) pos) ≡ some (xs, at rest (pos + length xs))
unfolding take_bytes
take_bytes-append xs rest pos =
    rw (le→not-ltb (length (xs ++ rest)) (length xs) (omega (arith, length-append xs rest)))
      (rw (take-length_append xs rest, drop-length_append xs rest))

parse_format-format_code :
    (f : Format) → is_supported f ≡ true → parse_format (format_code f) ≡ ok f
unfolding parse_format format_code is_supported
parse_format-format_code Format.jis8 h = cc
parse_format-format_code Format.list h = refl
parse_format-format_code _ h = refl

format_code-lt : (f : Format) → format_code f < 64
unfolding format_code
format_code-lt Format.list = omega arith
format_code-lt _ = omega arith

-- A header with `k` length bytes.
abbrev header_of : Format → ℕ → ℕ → Bytes
header_of f k len = (format_code f * 4 + k) % 256 ∷ store_be k len

decode-header_of :
    (f : Format) (k len pos : ℕ) (rest : Bytes)
    → is_supported f ≡ true
    → 0 < k
    → k < 4
    → len < 256 ^ k
    → decode_header (at (header_of f k len ++ rest) pos) ≡ ok (f, len, at rest (pos + 1 + k))
unfolding decode_header
decode-header_of f k len pos rest s lo hi fits = ground (
  arith,
  take_bytes-append ((format_code f * 4 + k) % 256 ∷ []) (store_be k len ++ rest) pos,
  field,
  format_code-lt f,
  low,
  high,
  parse_format-format_code f s,
  load_be-store_be_le 8 k len (omega arith) fits,
)
  where
    field :
        take_bytes k (at (store_be k len ++ rest) (pos + 1))
        ≡ some (store_be k len, at rest (pos + 1 + k))
    field = rw (length-store_be k len) at (take_bytes-append (store_be k len) rest (pos + 1))

    low : (format_code f * 4 + k) % 256 % 4 ≡ k
    low = omega (arith, format_code-lt f)

    high : (format_code f * 4 + k) % 256 / 4 ≡ format_code f
    high = omega (arith, format_code-lt f)

encode_header-cases :
    (f : Format) (len : ℕ)
    → len ≤ max_item_length
    → (k : ℕ) × (encode_header f len ≡ ok (header_of f k len)) × (0 < k) × (k < 4) × (len < 256 ^ k)
unfolding encode_header
encode_header-cases f len h = elim (Bool-cases (ltb 0xffff len)) [
  | inl a ↦ (3, ground arith, omega arith, omega arith, omega arith)
  | inr a ↦ elim (Bool-cases (ltb 0xff len)) [
    | inl b ↦ (2, ground arith, omega arith, omega arith, omega (arith, ltb_false→le 0xffff len a))
    | inr b ↦ (1, ground arith, omega arith, omega arith, omega (arith, ltb_false→le 0xff len b))
  ]
]

-- A header that is written is read back, and has at least two bytes.
pub decode-encode_header :
    (f : Format) (len : ℕ)
    → is_supported f ≡ true
    → len ≤ max_item_length
    → (hs : Bytes) × (encode_header f len ≡ ok hs)
      × (2 ≤ length hs)
      × ((rest : Bytes) (pos : ℕ)
          → decode_header (at (hs ++ rest) pos) ≡ ok (f, len, at rest (pos + length hs)))
decode-encode_header f len s h =
    let (k, e, lo, hi, fits) = encode_header-cases f len h in
    (
      header_of f k len,
      e,
      omega (arith, length-store_be k len),
      λ rest pos.
          decode-header_of f k len pos rest s lo hi fits
          ∙ ap (λ (n : ℕ). ok (f, len, at rest n)) (omega (arith, length-store_be k len)),
    )
