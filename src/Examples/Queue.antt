-- ===== src/Examples/Queue.antt =====
-- The theorems about include/ssim/core/queue.hpp at concrete inputs.
use semiconductor_metrology.Base.{ℕ, ◌≤◌, ◌≡◌, refl, ◌⊎◌, true, false, List, [], ◌∷◌, ◌++◌, length}
use semiconductor_metrology.Core.Queue.{
  block, BoundedQueue, new, push, push_full, pop, pop_from, close,
}
use semiconductor_metrology.Core.Queue.Fifo.{
  Call, pushing, popping, closing, start, run, perform, pushed, popped, run-start-fifo,
  nullopt_is_final,
}
use semiconductor_metrology.Core.Queue.Waiting
use semiconductor_metrology.Core.Queue.Waiting.{
  Monitor, Action, pushes, pushes_on, pops, notifies_one_not_full, notifies_one_not_empty, step,
  push_on, notify_one, wakes, falls_asleep, owes_one,
}
use semiconductor_metrology.Core.Queue.Waiting.Wakeups.{no_wakeup_is_lost}

-- The third push finds the queue full and waits.
abbrev calls : List (Call ℕ)
calls = pushing 1 ∷ pushing 2 ∷ pushing 3 ∷ popping ∷ []

run-start-fifo_example :
    ((run calls (start 2 block)).accepted
      ≡ (run calls (start 2 block)).taken ++ (run calls (start 2 block)).queue.items)
    × (length (run calls (start 2 block)).queue.items ≤ 2)
run-start-fifo_example = run-start-fifo 2 block calls

-- What `calls` does.
calls_lem :
    ((run calls (start 2 block)).accepted ≡ 1 ∷ 2 ∷ [])
    × ((run calls (start 2 block)).taken ≡ 1 ∷ [])
unfolding run perform pushed popped push push_full pop pop_from
calls_lem = (refl, refl)

abbrev before : List (Call ℕ)
before = pushing 1 ∷ closing ∷ popping ∷ []

abbrev later : List (Call ℕ)
later = pushing 5 ∷ popping ∷ []

nullopt_is_final_example :
    ((run before (start 2 block)).accepted ≡ (run before (start 2 block)).taken)
    × ((run later (run before (start 2 block))).accepted ≡ (run before (start 2 block)).accepted)
    × ((run later (run before (start 2 block))).taken ≡ (run before (start 2 block)).taken)
unfolding run perform pushed popped push push_full pop pop_from close
nullopt_is_final_example =
    nullopt_is_final 2 block before later (record (new 2 block) { closed = true }) refl

-- A push sleeps on the full queue; the pop's notification wakes it, and it puts its item in.
abbrev handed_over : List (Action ℕ)
handed_over =
    pushes 1
    ∷ pushes 2
    ∷ pops
    ∷ notifies_one_not_full
    ∷ pushes_on 2
    ∷ notifies_one_not_empty
    ∷ notifies_one_not_empty
    ∷ []

abbrev at_end : Monitor ℕ
at_end =
    semiconductor_metrology.Core.Queue.Waiting.run handed_over
      (semiconductor_metrology.Core.Queue.Waiting.start 1 block)

no_wakeup_is_lost_example :
    ((at_end.not_full.asleep ≡ 0) ⊎ (at_end.queue.closed ≡ false) × (1 ≤ length at_end.queue.items))
    × ((at_end.not_empty.asleep ≡ 0) ⊎ (at_end.queue.closed ≡ false) × (at_end.queue.items ≡ []))
unfolding semiconductor_metrology.Core.Queue.Waiting.run step
    semiconductor_metrology.Core.Queue.Waiting.pushed
    semiconductor_metrology.Core.Queue.Waiting.popped push_on notify_one wakes falls_asleep owes_one
    push push_full pop pop_from
no_wakeup_is_lost_example =
    no_wakeup_is_lost 1 block handed_over (refl, refl, refl) (refl, refl, refl)

-- What `handed_over` does.
handed_over_lem : (at_end.queue.items ≡ 2 ∷ []) × (at_end.not_full.asleep ≡ 0)
unfolding semiconductor_metrology.Core.Queue.Waiting.run step
    semiconductor_metrology.Core.Queue.Waiting.pushed
    semiconductor_metrology.Core.Queue.Waiting.popped push_on notify_one wakes falls_asleep owes_one
    push push_full pop pop_from
handed_over_lem = (refl, refl)
