-- ===== src/Core/Queue/Waiting/Wakeups.antt =====
-- No wake-up of BoundedQueue (include/ssim/core/queue.hpp) is lost.
use semiconductor_metrology.Base.{
  ℕ, zero, suc, ◌+◌, ◌≤◌, ◌≡◌, refl, ◌⊎◌, inl, Bool, true, false, List, [], ◌∷◌, length, arith,
  length-append,
}
use semiconductor_metrology.Core.Queue.{BackpressurePolicy, push, push_full, pop, pop_from, close}
use semiconductor_metrology.Core.Queue.Waiting.{
  Condition, falls_asleep, owes_one, owes_all, wakes, notify_one, notify_all, Monitor, start,
  Action, pushes, pushes_on, pops, pops_on, closes, notifies_one_not_full, notifies_one_not_empty,
  notifies_all_not_full, notifies_all_not_empty, wakes_not_full, wakes_not_empty, pushed, popped,
  push_on, pop_on, step, run,
}

-- With threads asleep: a closed queue has its notify_all still to come; an open one has a thread that
-- woke, or a notification to come, for each of the places or items that it offers beyond `have`.
abbrev Covers : Bool → ℕ → ℕ → Condition → Type 0
Covers closed offered have c =
    (c.asleep ≡ 0)
    ⊎ ((closed ≡ true) × (1 ≤ c.owed_all)
        ⊎ (closed ≡ false) × (offered ≤ have + c.woken + c.owed_one))

wakes-Covers :
    (closed : Bool) (offered have : ℕ) (c : Condition)
    → Covers closed offered have c
    → Covers closed offered have (wakes c.asleep c)
unfolding wakes
wakes-Covers closed offered have c h = go c.asleep refl
  where
    go : (n : ℕ) → c.asleep ≡ n → Covers closed offered have (wakes n c)
    go zero e = h
    go (suc n) e = ground arith

notify_one-Covers :
    (closed : Bool) (offered have : ℕ) (c : Condition)
    → Covers closed offered have c
    → Covers closed offered have (notify_one c.owed_one c)
unfolding notify_one wakes
notify_one-Covers closed offered have c h = go c.owed_one refl
  where
    go : (n : ℕ) → c.owed_one ≡ n → Covers closed offered have (notify_one n c)
    go zero e = h
    go (suc n) e = further c.asleep refl
      where
        further :
            (k : ℕ)
            → c.asleep ≡ k
            → Covers closed offered have (wakes k (record c { owed_one = n }))
        further zero e' = inl e'
        further (suc k) e' = ground arith

notify_all-Covers :
    (closed : Bool) (offered have : ℕ) (c : Condition)
    → Covers closed offered have c
    → Covers closed offered have (notify_all c.owed_all c)
unfolding notify_all
notify_all-Covers closed offered have c h = go c.owed_all refl
  where
    go : (n : ℕ) → c.owed_all ≡ n → Covers closed offered have (notify_all n c)
    go zero e = h
    go (suc n) e = inl refl

-- Nobody is left to move: no thread woke and no notification is still to come.
abbrev pub IsQuiet : Condition → Type 0
IsQuiet c = (c.woken ≡ 0) × (c.owed_one ≡ 0) × (c.owed_all ≡ 0)

module _ {ℓ} {A : Type ℓ} where
  record IsAwake (c : ℕ) (m : Monitor A) : Type ℓ where
    same_capacity : m.queue.capacity ≡ c
    for_push : Covers m.queue.closed c (length m.queue.items) m.not_full
    for_pop : Covers m.queue.closed (length m.queue.items) 0 m.not_empty

  pushes-IsAwake :
      (c : ℕ) (item : A) (m : Monitor A) → IsAwake c m → IsAwake c (pushed (push item m.queue) m)
  unfolding pushed push push_full falls_asleep owes_one
  pushes-IsAwake c item m w = ground (arith, length-append m.queue.items (item ∷ []))

  pops-IsAwake : (c : ℕ) (m : Monitor A) → IsAwake c m → IsAwake c (popped (pop m.queue) m)
  unfolding popped pop pop_from falls_asleep owes_one
  pops-IsAwake c m w = ground arith

  pushes_on-IsAwake :
      (c : ℕ) (item : A) (m : Monitor A) → IsAwake c m → IsAwake c (push_on m.not_full.woken item m)
  unfolding push_on pushed push push_full falls_asleep owes_one
  pushes_on-IsAwake c item m w = go m.not_full.woken refl
    where
      go : (n : ℕ) → m.not_full.woken ≡ n → IsAwake c (push_on n item m)
      go zero e = w
      go (suc n) e = ground (arith, length-append m.queue.items (item ∷ []))

  pops_on-IsAwake : (c : ℕ) (m : Monitor A) → IsAwake c m → IsAwake c (pop_on m.not_empty.woken m)
  unfolding pop_on popped pop pop_from falls_asleep owes_one
  pops_on-IsAwake c m w = go m.not_empty.woken refl
    where
      go : (n : ℕ) → m.not_empty.woken ≡ n → IsAwake c (pop_on n m)
      go zero e = w
      go (suc n) e = ground arith

  closes-IsAwake : (c : ℕ) (m : Monitor A) → IsAwake c m → IsAwake c (step closes m)
  unfolding step owes_all close
  closes-IsAwake c m w = ground arith

  step-IsAwake : (c : ℕ) (a : Action A) (m : Monitor A) → IsAwake c m → IsAwake c (step a m)
  unfolding step
  step-IsAwake c (pushes item) m w = pushes-IsAwake c item m w
  step-IsAwake c (pushes_on item) m w = pushes_on-IsAwake c item m w
  step-IsAwake c pops m w = pops-IsAwake c m w
  step-IsAwake c pops_on m w = pops_on-IsAwake c m w
  step-IsAwake c closes m w = closes-IsAwake c m w
  step-IsAwake c notifies_one_not_full m w = record {
    same_capacity = w.same_capacity;
    for_push = notify_one-Covers _ _ _ m.not_full w.for_push;
    for_pop = w.for_pop;
  }
  step-IsAwake c notifies_one_not_empty m w = record {
    same_capacity = w.same_capacity;
    for_push = w.for_push;
    for_pop = notify_one-Covers _ _ _ m.not_empty w.for_pop;
  }
  step-IsAwake c notifies_all_not_full m w = record {
    same_capacity = w.same_capacity;
    for_push = notify_all-Covers _ _ _ m.not_full w.for_push;
    for_pop = w.for_pop;
  }
  step-IsAwake c notifies_all_not_empty m w = record {
    same_capacity = w.same_capacity;
    for_push = w.for_push;
    for_pop = notify_all-Covers _ _ _ m.not_empty w.for_pop;
  }
  step-IsAwake c wakes_not_full m w = record {
    same_capacity = w.same_capacity;
    for_push = wakes-Covers _ _ _ m.not_full w.for_push;
    for_pop = w.for_pop;
  }
  step-IsAwake c wakes_not_empty m w = record {
    same_capacity = w.same_capacity;
    for_push = w.for_push;
    for_pop = wakes-Covers _ _ _ m.not_empty w.for_pop;
  }

  run-IsAwake :
      (c : ℕ) (actions : List (Action A)) (m : Monitor A) → IsAwake c m → IsAwake c (run actions m)
  unfolding run
  run-IsAwake c [] m w = w
  run-IsAwake c (a ∷ later) m w = run-IsAwake c later (step a m) (step-IsAwake c a m w)

  -- No wake-up is lost. After any actions on a new queue that leave no thread that woke and no
  -- notification still to come, a push sleeps only if the queue is open and full, and a pop only
  -- if it is open and empty.
  pub no_wakeup_is_lost :
      (c : ℕ) (p : BackpressurePolicy) (actions : List (Action A))
      → IsQuiet (run actions (start c p)).not_full
      → IsQuiet (run actions (start c p)).not_empty
      → (((run actions (start c p)).not_full.asleep ≡ 0)
          ⊎ ((run actions (start c p)).queue.closed ≡ false)
            × (c ≤ length (run actions (start c p)).queue.items))
        × (((run actions (start c p)).not_empty.asleep ≡ 0)
            ⊎ ((run actions (start c p)).queue.closed ≡ false)
              × ((run actions (start c p)).queue.items ≡ []))
  no_wakeup_is_lost c p actions full empty =
      quiet (run actions (start c p)) (run-IsAwake c actions (start c p) fresh) full empty
    where
      fresh : IsAwake c (start {A = A} c p)
      fresh = record { same_capacity = refl; for_push = inl refl; for_pop = inl refl }

      quiet :
          (m : Monitor A)
          → IsAwake c m
          → IsQuiet m.not_full
          → IsQuiet m.not_empty
          → ((m.not_full.asleep ≡ 0) ⊎ (m.queue.closed ≡ false) × (c ≤ length m.queue.items))
            × ((m.not_empty.asleep ≡ 0) ⊎ (m.queue.closed ≡ false) × (m.queue.items ≡ []))
      quiet m w f e = ground arith
