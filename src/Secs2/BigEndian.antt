-- ===== src/Secs2/BigEndian.antt =====
-- The big-endian helpers of src/secsgem/secs2/codec.cpp. A byte is a number below 256, so
-- `(v << 8) | b` is `v * 256 + b`, cut to the width of the unsigned type (`w` bytes).
use native.Mathlib.Nat.{
  pow-suc, one-le-pow, pow-le-pow_right, mod-eq_of_lt, mod-lt, div-add-mod, add-mul-mod_self_left,
}
use semiconductor_metrology.Base.{
  ℕ, zero, suc, ◌+◌, ◌*◌, ◌/◌, ◌%◌, ◌^◌, ◌≤◌, ◌<◌, ◌≡◌, refl, sym, ap, ◌∙◌, List, [], ◌∷◌, All,
  length, arith,
}

abbrev pub Bytes : Type 0
Bytes = List ℕ

abbrev pub IsByte : ℕ → Type 0
IsByte b = b < 256

unfoldable pub load_from : ℕ → ℕ → Bytes → ℕ
load_from w acc [] = acc
load_from w acc (b ∷ bs) = load_from w ((acc * 256 + b) % 256 ^ w) bs

-- load_be<UInt>(p) with sizeof(UInt) = w, on the w bytes at p.
unfoldable pub load_be : ℕ → Bytes → ℕ
unfolding load_from
load_be w bs = load_from w 0 bs

-- store_be: the lowest `k` bytes of v, the highest first.
unfoldable pub store_be : ℕ → ℕ → Bytes
store_be zero v = []
store_be (suc k) v = v / 256 ^ k % 256 ∷ store_be k v

value : Bytes → ℕ
value [] = 0
value (b ∷ bs) = b * 256 ^ length bs + value bs

value-lt : (bs : Bytes) → All IsByte bs → value bs < 256 ^ length bs
unfolding value
value-lt [] h = omega arith
value-lt (b ∷ bs) h = grind (arith, value-lt bs h.1, pow-suc 256 (length bs))

pub length-store_be : (k v : ℕ) → length (store_be k v) ≡ k
unfolding store_be
length-store_be zero v = refl
length-store_be (suc k) v = ap suc (length-store_be k v)

pub store_be-IsByte : (k v : ℕ) → All IsByte (store_be k v)
unfolding store_be
store_be-IsByte zero v = tt
store_be-IsByte (suc k) v = (omega arith, store_be-IsByte k v)

regroup : (m q r s d v : ℕ) → m * q + r ≡ v → q ≡ 256 * s + d → v ≡ (d * m + r) + m * 256 * s
regroup m q r s d v e f = omega (arith, ap (λ (t : ℕ). m * t) f)

digit_bound : (m d r : ℕ) → d < 256 → r < m → d * m + r < m * 256
digit_bound m d r hd hr = grind arith

low_digit : (m v : ℕ) → 0 < m → v / m % 256 * m + v % m ≡ v % (m * 256)
low_digit m v h = sym (
    ap (λ (t : ℕ). t % (m * 256))
      (regroup m (v / m) (v % m) (v / m / 256) (v / m % 256) v (div-add-mod v m) (omega arith))
    ∙ add-mul-mod_self_left (v / m % 256 * m + v % m) (m * 256) (v / m / 256)
    ∙ mod-eq_of_lt (digit_bound m (v / m % 256) (v % m) (omega arith) (mod-lt v h)))

next_fits : (acc b p : ℕ) → b < 256 → (acc * 256 + b + 1) * p ≤ (acc + 1) * (p * 256)
next_fits acc b p h = grind arith

le_mul_pos : (a p : ℕ) → 0 < p → a ≤ a * p
le_mul_pos a p h = grind arith

load_from-value :
    (w acc : ℕ) (bs : Bytes)
    → All IsByte bs
    → (acc + 1) * 256 ^ length bs ≤ 256 ^ w
    → load_from w acc bs ≡ acc * 256 ^ length bs + value bs
unfolding load_from value
load_from-value w acc [] h fits = omega arith
load_from-value w acc (b ∷ bs) h fits = rw (mod-eq_of_lt small) (
    load_from-value w (acc * 256 + b) bs h.1 fits'
    ∙ omega (arith, pow-suc 256 (length bs), ap (λ (t : ℕ). acc * t) (pow-suc 256 (length bs))))
  where
    fits' : (acc * 256 + b + 1) * 256 ^ length bs ≤ 256 ^ w
    fits' = omega (
      arith,
      next_fits acc b (256 ^ length bs) h.0,
      ap (λ (t : ℕ). (acc + 1) * t) (pow-suc 256 (length bs)),
    )

    small : acc * 256 + b < 256 ^ w
    small = omega (
      arith,
      fits',
      le_mul_pos (acc * 256 + b + 1) (256 ^ length bs) (one-le-pow (length bs) 256 (omega arith)),
    )

value-store_be : (k v : ℕ) → value (store_be k v) ≡ v % 256 ^ k
unfolding value store_be
value-store_be zero v = omega arith
value-store_be (suc k) v =
    rw (length-store_be k v, value-store_be k v, pow-suc 256 k)
      (low_digit (256 ^ k) v (one-le-pow k 256 (omega arith)))

-- Storing the `k` bytes of a value that fits them, and loading them into a type that has as many,
-- gives the value.
pub load_be-store_be_le : (w k v : ℕ) → k ≤ w → v < 256 ^ k → load_be w (store_be k v) ≡ v
unfolding load_be
load_be-store_be_le w k v le h = omega (
  arith,
  load_from-value w 0 (store_be k v) (store_be-IsByte k v)
      (rw (length-store_be k v) (omega (arith, pow-le-pow_right {n = 256} (omega arith) le))),
  value-store_be k v,
  mod-eq_of_lt h,
)

pub load_be-store_be : (w v : ℕ) → v < 256 ^ w → load_be w (store_be w v) ≡ v
load_be-store_be w v h = load_be-store_be_le w w v (omega arith) h

load_from-lt : (w acc : ℕ) (bs : Bytes) → acc < 256 ^ w → load_from w acc bs < 256 ^ w
unfolding load_from
load_from-lt w acc [] h = h
load_from-lt w acc (b ∷ bs) h =
    load_from-lt w ((acc * 256 + b) % 256 ^ w) bs
      (mod-lt (acc * 256 + b) (one-le-pow w 256 (omega arith)))

-- What is loaded fits the type, whatever the bytes are.
pub load_be-lt : (w : ℕ) (bs : Bytes) → load_be w bs < 256 ^ w
unfolding load_be
load_be-lt w bs = load_from-lt w 0 bs (one-le-pow w 256 (omega arith))

-- What is loaded from a few bytes is bounded by their number.
pub load_be-lt_length :
    (w : ℕ) (bs : Bytes) → All IsByte bs → length bs ≤ w → load_be w bs < 256 ^ length bs
unfolding load_be
load_be-lt_length w bs h le = omega (
  arith,
  load_from-value w 0 bs h (omega (arith, pow-le-pow_right {n = 256} (omega arith) le)),
  value-lt bs h,
)
