-- ===== src/Core/Ring/Slots.antt =====
-- The slots of the ring of include/ssim/core/spsc_ring_queue.hpp that hold the waiting items.
use semiconductor_metrology.Base.{
  ℕ, suc, ◌+◌, ◌%◌, ◌≤◌, ◌<◌, List, [], ◌∷◌, ◌++◌, Option, some, ◌≡◌, ◌≢◌, sym, ap, ◌∙◌, arith,
  length,
}
use semiconductor_metrology.Core.Ring.{write}
use semiconductor_metrology.Core.Ring.Index.{apart}

module _ {ℓ} {A : Type ℓ} (size : ℕ) where
  -- The items stand in the slots of the index `t` and those after it.
  unfoldable pub Holds : (ℕ → Option A) → ℕ → List A → Type ℓ
  Holds slots t [] = Unit
  Holds slots t (x ∷ xs) = (slots (t % size) ≡ some x) × Holds slots (suc t) xs

  pub write_other :
      (slots : ℕ → Option A) (i j : ℕ) (v : Option A) → j ≢ i → write i v slots j ≡ slots j
  unfolding write
  write_other slots i j v h = ground arith

  pub write_same : (slots : ℕ → Option A) (i : ℕ) (v : Option A) → write i v slots i ≡ v
  unfolding write
  write_same slots i v = ground arith

  -- A write behind the items, less than a round ahead of the first.
  pub Holds-write_behind :
      (slots : ℕ → Option A) (t h : ℕ) (xs : List A) (v : Option A)
      → t + length xs ≤ h
      → h < t + size
      → Holds slots t xs
      → Holds (write (h % size) v slots) t xs
  unfolding Holds
  Holds-write_behind slots t h [] v l u hs = tt
  Holds-write_behind slots t h (x ∷ xs) v l u (here, later) = (
    write_other slots (h % size) (t % size) v (apart size t h (omega (arith, l)) u) ∙ here,
    Holds-write_behind slots (suc t) h xs v (omega (arith, l)) (omega (arith, u)) later,
  )

  -- A write before the items, less than a round away from the last.
  pub Holds-write_before :
      (slots : ℕ → Option A) (t h : ℕ) (xs : List A) (v : Option A)
      → h < t
      → t + length xs ≤ h + size
      → Holds slots t xs
      → Holds (write (h % size) v slots) t xs
  unfolding Holds
  Holds-write_before slots t h [] v l u hs = tt
  Holds-write_before slots t h (x ∷ xs) v l u (here, later) = (
    write_other slots (h % size) (t % size) v (λ e. apart size h t l (omega (arith, u)) (sym e))
        ∙ here,
    Holds-write_before slots (suc t) h xs v (omega (arith, l)) (omega (arith, u)) later,
  )

  pub Holds-snoc :
      (slots : ℕ → Option A) (t h : ℕ) (xs : List A) (x : A)
      → h ≡ t + length xs
      → Holds slots t xs
      → slots (h % size) ≡ some x
      → Holds slots t (xs ++ (x ∷ []))
  unfolding Holds
  Holds-snoc slots t h [] x p hs e =
      let same : t ≡ h = omega (arith, p) in (ap (λ i. slots (i % size)) same ∙ e, tt)
  Holds-snoc slots t h (y ∷ ys) x p (here, later) e =
      (here, Holds-snoc slots (suc t) h ys x (omega (arith, p)) later e)
