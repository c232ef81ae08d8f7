-- ===== src/Core/Queue.antt =====
-- BoundedQueue of include/ssim/core/queue.hpp. Each operation is what its thread does while it holds
-- the mutex. Where the thread would wait on its condition variable the outcome is none: the
-- predicate of the wait is false. When it holds, the rest of the call does what the call would do
-- from the start, so a thread that goes on is a call made anew. The notifications are in
-- Core/Queue/Waiting.
pub mod Fifo
pub mod Waiting
use semiconductor_metrology.Base.{
  ℕ, ◌+◌, ◌%◌, ◌^◌, Bool, true, false, List, [], ◌∷◌, ◌++◌, Option, none, some, if◌then◌else◌, leb,
  length,
}

pub data BackpressurePolicy : Type 0 where
  block drop_newest : BackpressurePolicy

module _ {ℓ} where
  pub record BoundedQueue (A : Type ℓ) : Type ℓ where
    pub items : List A
    pub capacity : ℕ
    pub policy : BackpressurePolicy
    pub dropped : ℕ
    pub closed : Bool

  module _ {A : Type ℓ} where
    abbrev pub new : ℕ → BackpressurePolicy → BoundedQueue A
    new c p = record { items = []; capacity = c; policy = p; dropped = 0; closed = false }

    -- A full queue that is not closed: dropped_ is a std::size_t of 64 bits.
    unfoldable pub push_full : BackpressurePolicy → BoundedQueue A → Option (BoundedQueue A × Bool)
    push_full drop_newest q = some (record q { dropped = (q.dropped + 1) % 2 ^ 64 }, false)
    push_full block q = none

    unfoldable pub push : A → BoundedQueue A → Option (BoundedQueue A × Bool)
    unfolding push_full
    push item q =
        if q.closed
        then some (q, false)
        else if leb q.capacity (length q.items)
        then push_full q.policy q
        else some (record q { items = q.items ++ (item ∷ []) }, true)

    -- The queue, and the item or std::nullopt.
    unfoldable pub pop_from : List A → BoundedQueue A → Option (BoundedQueue A × Option A)
    pop_from [] q = if q.closed then some (q, none) else none
    pop_from (item ∷ rest) q = some (record q { items = rest }, some item)

    unfoldable pub pop : BoundedQueue A → Option (BoundedQueue A × Option A)
    unfolding pop_from
    pop q = pop_from q.items q

    unfoldable pub close : BoundedQueue A → BoundedQueue A
    close q = record q { closed = true }

    unfoldable pub size : BoundedQueue A → ℕ
    size q = length q.items
