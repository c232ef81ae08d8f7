-- ===== src/Examples/Ring.antt =====
-- The theorem about include/ssim/core/spsc_ring_queue.hpp at a concrete input, and a test.
use semiconductor_metrology.Base.{ℕ, List, [], ◌∷◌, ◌≡◌, refl, Option, none, some, arith}
use semiconductor_metrology.Core.Queue.{block}
use semiconductor_metrology.Core.Ring.{
  Log, Action, push_action, place_action, publish_action, spin_action, take_action, release_action,
  retry_action, try_action, close_action, look_action, look_again, ended, new, run,
}
use semiconductor_metrology.Core.Ring.Ended.{IsAway, Unchanged, ended_is_final}
use semiconductor_metrology.Core.Ring.Fifo.{Runs, run-fresh-Runs, fresh}

-- The third item waits until the consumer has taken the first.
abbrev interleaved : List (Action ℕ)
interleaved =
    push_action 7
    ∷ try_action
    ∷ place_action
    ∷ publish_action
    ∷ push_action 8
    ∷ try_action
    ∷ spin_action
    ∷ place_action
    ∷ publish_action
    ∷ push_action 9
    ∷ try_action
    ∷ take_action
    ∷ retry_action
    ∷ try_action
    ∷ release_action
    ∷ retry_action
    ∷ try_action
    ∷ place_action
    ∷ publish_action
    ∷ []

run-fresh-Runs_example : Runs 2 (run interleaved (fresh 2 block))
run-fresh-Runs_example = run-fresh-Runs 2 block interleaved (omega arith)

abbrev given_and_taken : Option (Log ℕ) → List ℕ × List ℕ
given_and_taken o = elim o [ none ↦ ([], []) | some l ↦ (l.given, l.taken) ]

interleaved-run : given_and_taken (run interleaved (fresh 2 block)) ≡ (7 ∷ [], 7 ∷ 8 ∷ 9 ∷ [])
unfolding run new
interleaved-run = refl

-- One item goes through, then the queue is closed, and the consumer looks again.
abbrev closed_down : List (Action ℕ)
closed_down =
    push_action 7
    ∷ try_action
    ∷ place_action
    ∷ publish_action
    ∷ close_action
    ∷ spin_action
    ∷ take_action
    ∷ release_action
    ∷ look_action
    ∷ []

drained : Log ℕ
unfolding run new
drained = elim (run closed_down (fresh 2 block)) [ none ↦ fresh 2 block | some l ↦ l ]

drained-run : run closed_down (fresh 2 block) ≡ some drained
unfolding drained run new
drained-run = refl

drained-IsAway : IsAway drained.ring.producer
unfolding drained run new IsAway
drained-IsAway = tt

drained_ended : (look_again drained.ring.consumer drained.ring).1 ≡ ended
unfolding drained run new look_again
drained_ended = refl

ended_is_final_example :
    (drained.taken ≡ drained.given)
    × Unchanged drained.taken drained.given (
        run interleaved
          (record drained { ring = (look_again drained.ring.consumer drained.ring).0 }))
ended_is_final_example =
    ended_is_final 2 block closed_down interleaved drained (omega arith) drained-run drained-IsAway
      drained_ended
