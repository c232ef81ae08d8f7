-- ===== src/Core/Ring/Index.antt =====
-- The indices of include/ssim/core/spsc_ring_queue.hpp: they wrap around at 2 ^ 64, and a slot is found
-- by their remainder.
use semiconductor_metrology.Base.{
  ℕ, zero, suc, ◌+◌, ◌*◌, ◌%◌, ◌/◌, ◌^◌, ◌≤◌, ◌<◌, ◌≡◌, ◌≢◌, refl, sym, ap, subst, ◌∙◌, arith, ltb,
  Bool-cases, ltb→lt, ltb_false→le, inl, inr,
}
use native.Mathlib.Nat
use Prim.Native.Nat.{◌∣◌}
use semiconductor_metrology.Core.Ring.{double_up, round_up_to_power_of_two}

-- A wrapped index finds the slot of the index.
pub wrapped : (size k i : ℕ) → size * k ≡ 2 ^ 64 → i % 2 ^ 64 % size ≡ i % size
wrapped size k i h =
    Nat.mod-mod_of_dvd size {b = 2 ^ 64} i (subst (λ n. size ∣ n) h (Nat.dvd-mul_right size k))

-- Indices that are closer than the size have different slots.
pub apart : (size i j : ℕ) → i < j → j < i + size → i % size ≢ j % size
apart size i j lo hi h =
    same_quotient (i / size) (j / size) (Nat.div-add-mod i size) (Nat.div-add-mod j size)
  where
    same_quotient : (a b : ℕ) → size * a + i % size ≡ i → size * b + j % size ≡ j → ⊥
    same_quotient a b e f = elim (Bool-cases (ltb a b)) [
      | inl l ↦ omega (arith, Nat.mul-le-mul_left size (ltb→lt a b l), Nat.mul-suc size a)
      | inr g ↦ omega (arith, Nat.mul-le-mul_left size (ltb_false→le a b g))
    ]

doubled :
    (fuel p n : ℕ)
    → p * 2 ^ fuel ≡ 2 ^ 63
    → n ≤ 2 ^ 63
    → ((k : ℕ) × (double_up fuel p n * k ≡ 2 ^ 63)) × (n ≤ double_up fuel p n)
unfolding double_up
doubled zero p n h l = ((1, h), omega arith)
doubled (suc fuel) p n h l = elim (Bool-cases (ltb p n)) [
  | inr e ↦ rw (e) ((2 ^ suc fuel, h), ltb_false→le p n e)
  | inl e ↦ rw (e) (doubled fuel (p * 2 % 2 ^ 64) n (doubling h (ltb→lt p n e)) l)
]
  where
    doubling : p * 2 ^ suc fuel ≡ 2 ^ 63 → p < n → p * 2 % 2 ^ 64 * 2 ^ fuel ≡ 2 ^ 63
    doubling h e =
        rw (Nat.mod-eq_of_lt {n = p * 2} {m = 2 ^ 64} (omega (arith, e, l)))
          (Nat.mul_assoc p 2 (2 ^ fuel) ∙ ap (λ x. p * x) (sym (Nat.pow-succ' 2 fuel)) ∙ h)

-- The size of a ring is at least the capacity, where that is at most 2 ^ 63, and divides 2 ^ 64.
pub round_up :
    (n : ℕ)
    → n ≤ 2 ^ 63
    → ((k : ℕ) × (round_up_to_power_of_two n * k ≡ 2 ^ 64)) × (n ≤ round_up_to_power_of_two n)
unfolding round_up_to_power_of_two
round_up n h =
    let ((k, e), le) = doubled 63 1 n refl h in
    ((k * 2, sym (Nat.mul_assoc (double_up 63 1 n) k 2) ∙ ap (λ x. x * 2) e), le)
