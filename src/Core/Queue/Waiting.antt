-- ===== src/Core/Queue/Waiting.antt =====
-- The condition variables of BoundedQueue (include/ssim/core/queue.hpp). Each action is what a thread
-- does while it holds the mutex, or one notification after it has released it; the actions of
-- the threads come in any order. The threads are counted, not named: those asleep in a wait,
-- those that woke and have the predicate still to test, and the notifications still to come. A
-- waiting thread may also wake without a notification.
pub mod Wakeups
use semiconductor_metrology.Base.{
  ℕ, zero, suc, ◌+◌, ◌-◌, ◌≤◌, ◌≡◌, refl, Bool, true, false, List, [], ◌∷◌, Option, none, some,
  length, arith,
}
use semiconductor_metrology.Core.Queue.{
  BackpressurePolicy, block, drop_newest, BoundedQueue, new, push, push_full, pop, pop_from, close,
}

-- One condition variable.
pub record Condition : Type 0 where
  pub asleep : ℕ
  pub woken : ℕ
  -- notify_one and notify_all calls still to come
  pub owed_one : ℕ
  pub owed_all : ℕ

abbrev pub no_one : Condition
no_one = record { asleep = 0; woken = 0; owed_one = 0; owed_all = 0 }

unfoldable pub falls_asleep : Condition → Condition
falls_asleep c = record c { asleep = c.asleep + 1 }

unfoldable pub owes_one : Condition → Condition
owes_one c = record c { owed_one = c.owed_one + 1 }

unfoldable pub owes_all : Condition → Condition
owes_all c = record c { owed_all = c.owed_all + 1 }

-- A waiting thread wakes, by a notification or without one.
unfoldable pub wakes : ℕ → Condition → Condition
wakes zero c = c
wakes (suc others) c = record c { asleep = others; woken = c.woken + 1 }

-- notify_one, by a thread that owes it.
unfoldable pub notify_one : ℕ → Condition → Condition
unfolding wakes
notify_one zero c = c
notify_one (suc owed) c = wakes c.asleep (record c { owed_one = owed })

-- notify_all, by a thread that owes it.
unfoldable pub notify_all : ℕ → Condition → Condition
notify_all zero c = c
notify_all (suc owed) c = record c { asleep = 0; woken = c.woken + c.asleep; owed_all = owed }

module _ {ℓ} where
  pub record Monitor (A : Type ℓ) : Type ℓ where
    pub queue : BoundedQueue A
    pub not_full : Condition
    pub not_empty : Condition

  pub data Action (A : Type ℓ) : Type ℓ where
    -- a call of push, and a push that woke
    pushes pushes_on : A → Action A
    -- a call of pop, and a pop that woke
    pops pops_on : Action A
    closes : Action A
    notifies_one_not_full notifies_one_not_empty : Action A
    notifies_all_not_full notifies_all_not_empty : Action A
    wakes_not_full wakes_not_empty : Action A

  module _ {A : Type ℓ} where
    abbrev pub start : ℕ → BackpressurePolicy → Monitor A
    start c p = record { queue = new c p; not_full = no_one; not_empty = no_one }

    -- What push does under the mutex: it waits, gives up, or puts the item in, and will then notify.
    unfoldable pub pushed : Option (BoundedQueue A × Bool) → Monitor A → Monitor A
    unfolding falls_asleep owes_one
    pushed none m = record m { not_full = falls_asleep m.not_full }
    pushed (some (q, false)) m = record m { queue = q }
    pushed (some (q, true)) m = record m { queue = q; not_empty = owes_one m.not_empty }

    unfoldable pub popped : Option (BoundedQueue A × Option A) → Monitor A → Monitor A
    unfolding falls_asleep owes_one
    popped none m = record m { not_empty = falls_asleep m.not_empty }
    popped (some (q, none)) m = record m { queue = q }
    popped (some (q, some item)) m = record m { queue = q; not_full = owes_one m.not_full }

    -- A push or a pop that woke, if there is one, tests its predicate and goes on.
    unfoldable pub push_on : ℕ → A → Monitor A → Monitor A
    unfolding pushed
    push_on zero item m = m
    push_on (suc others) item m =
        pushed (push item m.queue) (record m { not_full = record (m.not_full) { woken = others } })

    unfoldable pub pop_on : ℕ → Monitor A → Monitor A
    unfolding popped
    pop_on zero m = m
    pop_on (suc others) m =
        popped (pop m.queue) (record m { not_empty = record (m.not_empty) { woken = others } })

    unfoldable pub step : Action A → Monitor A → Monitor A
    unfolding pushed popped push_on pop_on owes_all notify_one notify_all wakes
    step (pushes item) m = pushed (push item m.queue) m
    step (pushes_on item) m = push_on m.not_full.woken item m
    step pops m = popped (pop m.queue) m
    step pops_on m = pop_on m.not_empty.woken m
    step closes m = record m {
      queue = close m.queue;
      not_empty = owes_all m.not_empty;
      not_full = owes_all m.not_full;
    }
    step notifies_one_not_full m = record m { not_full = notify_one m.not_full.owed_one m.not_full }
    step notifies_one_not_empty m = record m {
      not_empty = notify_one m.not_empty.owed_one m.not_empty;
    }
    step notifies_all_not_full m = record m { not_full = notify_all m.not_full.owed_all m.not_full }
    step notifies_all_not_empty m = record m {
      not_empty = notify_all m.not_empty.owed_all m.not_empty;
    }
    step wakes_not_full m = record m { not_full = wakes m.not_full.asleep m.not_full }
    step wakes_not_empty m = record m { not_empty = wakes m.not_empty.asleep m.not_empty }

    unfoldable pub run : List (Action A) → Monitor A → Monitor A
    unfolding step
    run [] m = m
    run (a ∷ later) m = run later (step a m)
