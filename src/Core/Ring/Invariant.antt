-- ===== src/Core/Ring/Invariant.antt =====
-- The invariant of the ring of include/ssim/core/spsc_ring_queue.hpp.
use semiconductor_metrology.Base.{
  ℕ, suc, ◌+◌, ◌*◌, ◌%◌, ◌^◌, ◌≤◌, ◌<◌, Bool, true, false, List, [], ◌∷◌, ◌++◌, Option, none, some,
  ◌≡◌, refl, ap, ◌∙◌, arith, length, ltb, leb, ◌==◌, if◌then◌else◌, Bool-cases, ltb→lt, inl, inr,
}
use semiconductor_metrology.Core.Ring.{
  Ring, Producer, placing, publishing, Consumer, taking, releasing, minus, load_tail, has_room,
  Outcome, nothing, refused, ended, pushed, popped, After, load_head,
}
use semiconductor_metrology.Core.Ring.Index.{wrapped}
use semiconductor_metrology.Core.Ring.Slots.{Holds}

-- The six numbers of the ring, and the indices without wrap-around: `t` of the next item to take, `c`
-- and `d` that the caches of the tail and of the head stand for; `n` items wait.
pub record Indices (capacity size tail head cached_tail cached_head t c d n : ℕ) : Type 0 where
  pub rounds : (k : ℕ) × (size * k ≡ 2 ^ 64)
  pub fits : capacity ≤ size
  pub small : capacity ≤ 2 ^ 63
  pub tail_is : tail ≡ t % 2 ^ 64
  pub head_is : head ≡ (t + n) % 2 ^ 64
  pub cached_tail_is : cached_tail ≡ c % 2 ^ 64
  pub cached_head_is : cached_head ≡ d % 2 ^ 64
  pub behind : c ≤ t
  pub within : t + n ≤ c + capacity
  pub seen : t ≤ d
  pub stored : d ≤ t + n

module _ {A : Type 0} where
  abbrev pub IndicesOf : Ring A → ℕ → ℕ → ℕ → ℕ → Type 0
  IndicesOf r = Indices r.capacity r.size r.tail r.head r.cached_tail r.cached_head

  -- What holds at the producer's place in push, the next slot being that of index `h`.
  unfoldable pub AtProducer : Producer A → (ℕ → Option A) → ℕ → ℕ → Type 0 → Type 0
  AtProducer (placing x) slots size h room = room
  AtProducer (publishing x) slots size h room = (slots (h % size) ≡ some x) × room
  AtProducer _ slots size h room = Unit

  -- What holds at the consumer's place in pop, and where the waiting items are.
  unfoldable pub AtConsumer : Consumer A → (ℕ → Option A) → ℕ → ℕ → ℕ → List A → Type 0
  AtConsumer taking slots size t d q = (t < d) × Holds size slots t q
  AtConsumer (releasing x) slots size t d q =
      (t < d) × (rest : List A) × (q ≡ x ∷ rest) × Holds size slots (suc t) rest
  AtConsumer _ slots size t d q = Holds size slots t q

  pub record Inv (r : Ring A) (q : List A) : Type 0 where
    pub t : ℕ
    pub c : ℕ
    pub d : ℕ
    pub indices : IndicesOf r t c d (length q)
    pub at_producer :
        AtProducer r.producer r.slots r.size (t + length q) (t + length q < c + r.capacity)
    pub at_consumer : AtConsumer r.consumer r.slots r.size t d q

  -- After an action: the items that wait are as before, but for the one that push took or pop gave.
  unfoldable pub Good : List A → After A → Type 0
  Good q (r, pushed x) = Inv r (q ++ (x ∷ []))
  Good q (r, popped x) = (rest : List A) × (q ≡ x ∷ rest) × Inv r rest
  Good q (r, _) = Inv r q

  pub if_Good :
      (q : List A) (b : Bool) (x y : After A)
      → (b ≡ true → Good q x)
      → (b ≡ false → Good q y)
      → Good q (if b then x else y)
  if_Good q true x y f g = f refl
  if_Good q false x y f g = g refl

  pub room :
      (r : Ring A) (t c d n : ℕ) → IndicesOf r t c d n → has_room r ≡ true → t + n < c + r.capacity
  room r t c d n i h = omega (arith, ltb→lt (minus r.head r.cached_tail) r.capacity h)

  pub empty :
      (r : Ring A) (t c d n : ℕ) → IndicesOf r t c d n → (r.tail == r.cached_head) ≡ false → t < d
  empty r t c d n i h = elim (Bool-cases (ltb t d)) [ inl l ↦ ltb→lt t d l | inr g ↦ ground arith ]

  pub load_tail-Indices :
      (r : Ring A) (t c d n : ℕ) → IndicesOf r t c d n → (c : ℕ) × IndicesOf (load_tail r) t c d n
  load_tail-Indices r t c d n i = by_full (leb r.capacity (minus r.head r.cached_tail))
    where
      by_full :
          (b : Bool)
          → (c : ℕ) × IndicesOf
              (record r { cached_tail = if b then r.tail else r.cached_tail })
              t
              c
              d
              n
      by_full false = (c, i)
      by_full true = (
        t,
        record {
          rounds = i.rounds;
          fits = i.fits;
          small = i.small;
          tail_is = i.tail_is;
          head_is = i.head_is;
          cached_tail_is = i.tail_is;
          cached_head_is = i.cached_head_is;
          behind = omega arith;
          within = omega arith;
          seen = i.seen;
          stored = i.stored;
        },
      )

  pub load_head-Indices :
      (r : Ring A) (t c d n : ℕ)
      → IndicesOf r t c d n
      → (d' : ℕ) × (d ≤ d') × IndicesOf (load_head r) t c d' n
  load_head-Indices r t c d n i = by_empty (r.tail == r.cached_head)
    where
      by_empty :
          (b : Bool)
          → (d' : ℕ) × (d ≤ d')
            × IndicesOf (record r { cached_head = if b then r.head else r.cached_head }) t c d' n
      by_empty false = (d, omega arith, i)
      by_empty true = (
        t + n,
        i.stored,
        record {
          rounds = i.rounds;
          fits = i.fits;
          small = i.small;
          tail_is = i.tail_is;
          head_is = i.head_is;
          cached_tail_is = i.cached_tail_is;
          cached_head_is = i.head_is;
          behind = i.behind;
          within = i.within;
          seen = omega arith;
          stored = omega arith;
        },
      )

  pub slot_of :
      (r : Ring A) (t c d n : ℕ) (index i : ℕ)
      → IndicesOf r t c d n
      → index ≡ i % 2 ^ 64
      → index % r.size ≡ i % r.size
  slot_of r t c d n index i ix e =
      let (k, rounds) = ix.rounds in ap (λ x. x % r.size) e ∙ wrapped r.size k i rounds

  unfoldable pub IsQuiet : Outcome A → Type 0
  IsQuiet (pushed x) = ⊥
  IsQuiet (popped x) = ⊥
  IsQuiet _ = Unit

  pub quiet-Good : (r : Ring A) (q : List A) (o : Outcome A) → IsQuiet o → Inv r q → Good q (r, o)
  unfolding IsQuiet Good
  quiet-Good r q nothing h v = v
  quiet-Good r q refused h v = v
  quiet-Good r q ended h v = v
  quiet-Good r q (pushed x) h v = elim h [ ]
  quiet-Good r q (popped x) h v = elim h [ ]

  unfoldable pub Taken : List A → Option (After A) → Type 0
  Taken q none = ⊥
  Taken q (some after) = Good q after
