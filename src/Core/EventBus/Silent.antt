-- ===== src/Core/EventBus/Silent.antt =====
-- After unsubscribe of src/core/event_bus.cpp.
use semiconductor_metrology.Base.{
  ℕ, ◌+◌, true, false, List, [], ◌∷◌, ◌==◌, if◌then◌else◌, ◌≡◌, refl, subst, arith, Bool-cases, inl,
  inr,
}
use semiconductor_metrology.Core.EventBus.{
  EventBus, has, drop_one, subscribe, take_away, mark, publish, next_round, call_ends, is_executing,
  Frame, between, calling, Action, subscribe_action, take_away_action, mark_action, publish_action,
  next_action, end_action, step, run, Stage, looking, marking, waiting, returned, unsubscribe, Move,
  own, other, move, moves, wait_is_over, is_subscribed,
}

unfoldable pub times : ℕ → List ℕ → ℕ
times id [] = 0
times id (x ∷ xs) = let rest = times id xs in if x == id then rest + 1 else rest

has-drop_one : (id x : ℕ) (xs : List ℕ) → has id xs ≡ false → has id (drop_one x xs) ≡ false
unfolding has drop_one
has-drop_one id x [] h = refl
has-drop_one id x (y ∷ ys) h = ground (arith, has-drop_one id x ys)

-- Marked, not running, and called this often.
IsSilent : ℕ → ℕ → EventBus → Type 0
IsSilent id n b = (has id b.removed ≡ true) × (has id b.running ≡ false) × (times id b.started ≡ n)

round-IsSilent :
    (thread : ℕ) (frames : List Frame) (id n : ℕ) (b : EventBus)
    → IsSilent id n b
    → IsSilent id n (next_round thread frames b)
unfolding IsSilent next_round has times
round-IsSilent thread [] id n b h = h
round-IsSilent thread (between [] ∷ frames) id n b h = h
round-IsSilent thread (between (x ∷ rest) ∷ frames) id n b h = ground arith
round-IsSilent thread (calling x rest ∷ frames) id n b h = h

ends-IsSilent :
    (thread : ℕ) (frames : List Frame) (id n : ℕ) (b : EventBus)
    → IsSilent id n b
    → IsSilent id n (call_ends thread frames b)
unfolding IsSilent call_ends
ends-IsSilent thread [] id n b h = h
ends-IsSilent thread (between rest ∷ frames) id n b h = h
ends-IsSilent thread (calling x rest ∷ frames) id n b (m, r, c) =
    (m, has-drop_one id x b.running r, c)

publish-IsSilent :
    (thread type : ℕ) (frames : List Frame) (id n : ℕ) (b : EventBus)
    → IsSilent id n b
    → IsSilent id n (publish thread type frames b)
unfolding IsSilent publish
publish-IsSilent thread type [] id n b h = h
publish-IsSilent thread type (between rest ∷ frames) id n b h = h
publish-IsSilent thread type (calling x rest ∷ frames) id n b h = h

step-IsSilent : (a : Action) (id n : ℕ) (b : EventBus) → IsSilent id n b → IsSilent id n (step a b)
unfolding IsSilent step has subscribe take_away mark
step-IsSilent (subscribe_action type) id n b h = h
step-IsSilent (take_away_action x) id n b h = ground arith
step-IsSilent (mark_action x) id n b h = ground arith
step-IsSilent (publish_action thread type) id n b h =
    publish-IsSilent thread type (b.frames thread) id n b h
step-IsSilent (next_action thread) id n b h = round-IsSilent thread (b.frames thread) id n b h
step-IsSilent (end_action thread) id n b h = ends-IsSilent thread (b.frames thread) id n b h

run-IsSilent :
    (actions : List Action) (id n : ℕ) (b : EventBus)
    → IsSilent id n b
    → IsSilent id n (run actions b)
unfolding run
run-IsSilent [] id n b h = h
run-IsSilent (a ∷ later) id n b h = run-IsSilent later id n (step a b) (step-IsSilent a id n b h)

-- What a call of unsubscribe has done by a stage.
HasDone : ℕ → Stage → EventBus → Type 0
HasDone id looking b = Unit {0}
HasDone id marking b = has id b.erased ≡ true
HasDone id waiting b = has id b.removed ≡ true
HasDone id returned b = Unit {0}

round-keeps :
    (thread : ℕ) (frames : List Frame) (b : EventBus)
    → ((next_round thread frames b).erased ≡ b.erased)
      × ((next_round thread frames b).removed ≡ b.removed)
unfolding next_round
round-keeps thread [] b = (refl, refl)
round-keeps thread (between [] ∷ frames) b = (refl, refl)
round-keeps thread (between (x ∷ rest) ∷ frames) b = ground arith
round-keeps thread (calling x rest ∷ frames) b = (refl, refl)

ends-keeps :
    (thread : ℕ) (frames : List Frame) (b : EventBus)
    → ((call_ends thread frames b).erased ≡ b.erased)
      × ((call_ends thread frames b).removed ≡ b.removed)
unfolding call_ends
ends-keeps thread [] b = (refl, refl)
ends-keeps thread (between rest ∷ frames) b = (refl, refl)
ends-keeps thread (calling x rest ∷ frames) b = (refl, refl)

publish-keeps :
    (thread type : ℕ) (frames : List Frame) (b : EventBus)
    → ((publish thread type frames b).erased ≡ b.erased)
      × ((publish thread type frames b).removed ≡ b.removed)
unfolding publish
publish-keeps thread type [] b = (refl, refl)
publish-keeps thread type (between rest ∷ frames) b = (refl, refl)
publish-keeps thread type (calling x rest ∷ frames) b = (refl, refl)

step-keeps :
    (a : Action) (id : ℕ) (b : EventBus)
    → (has id b.erased ≡ true → has id (step a b).erased ≡ true)
      × (has id b.removed ≡ true → has id (step a b).removed ≡ true)
unfolding step has subscribe take_away mark
step-keeps (subscribe_action type) id b = (λ h. h, λ h. h)
step-keeps (take_away_action x) id b = (λ h. ground arith, λ h. ground arith)
step-keeps (mark_action x) id b = (λ h. ground arith, λ h. ground arith)
step-keeps (publish_action thread type) id b =
    ground (arith, publish-keeps thread type (b.frames thread) b)
step-keeps (next_action thread) id b = ground (arith, round-keeps thread (b.frames thread) b)
step-keeps (end_action thread) id b = ground (arith, ends-keeps thread (b.frames thread) b)

step-HasDone :
    (a : Action) (id : ℕ) (stage : Stage) (b : EventBus)
    → HasDone id stage b
    → HasDone id stage (step a b)
unfolding HasDone
step-HasDone a id looking b h = tt
step-HasDone a id marking b h = (step-keeps a id b).0 h
step-HasDone a id waiting b h = (step-keeps a id b).1 h
step-HasDone a id returned b h = tt

after_looking :
    (id : ℕ) (b : EventBus)
    → HasDone id (if is_subscribed id b.subscribers then marking else returned) (take_away id b)
unfolding HasDone take_away has
after_looking id b = elim (Bool-cases (is_subscribed id b.subscribers)) [
  | inl e ↦ rw e (ground arith)
  | inr e ↦ rw e tt
]

after_waiting :
    (thread id : ℕ) (b : EventBus)
    → has id b.removed ≡ true
    → HasDone id (if wait_is_over thread id b then returned else waiting) b
unfolding HasDone
after_waiting thread id b h = elim (Bool-cases (wait_is_over thread id b)) [
  | inl e ↦ rw e tt
  | inr e ↦ rw e h
]

own-HasDone :
    (thread id : ℕ) (stage : Stage) (b : EventBus)
    → HasDone id stage b
    → HasDone id (unsubscribe thread id stage b).0 (unsubscribe thread id stage b).1
unfolding HasDone unsubscribe mark has
own-HasDone thread id looking b h = after_looking id b
own-HasDone thread id marking b h = rw h (ground arith)
own-HasDone thread id waiting b h = after_waiting thread id b h
own-HasDone thread id returned b h = tt

moves-HasDone :
    (thread id : ℕ) (ms : List Move) (stage : Stage) (b : EventBus)
    → HasDone id stage b
    → HasDone id (moves thread id ms (stage, b)).0 (moves thread id ms (stage, b)).1
unfolding moves move
moves-HasDone thread id [] stage b h = h
moves-HasDone thread id (own ∷ ms) stage b h =
    moves-HasDone thread id ms (unsubscribe thread id stage b).0 (unsubscribe thread id stage b).1
      (own-HasDone thread id stage b h)
moves-HasDone thread id (other a ∷ ms) stage b h =
    moves-HasDone thread id ms stage (step a b) (step-HasDone a id stage b h)

-- A call of unsubscribe that found its subscriber in the table, and so came to its wait, between any
-- actions of the threads: where the wait is over, in a thread that is not inside the subscriber's
-- own handler, then whatever the threads do afterwards, no call of the handler starts and none is
-- in flight.
pub unsubscribe-IsSilent :
    (thread id : ℕ) (ms : List Move) (b b' : EventBus) (later : List Action)
    → moves thread id ms (looking, b) ≡ (waiting, b')
    → (unsubscribe thread id waiting b').0 ≡ returned
    → is_executing id (b'.frames thread) ≡ false
    → (has id (run later b').running ≡ false)
      × (times id (run later b').started ≡ times id b'.started)
unfolding IsSilent HasDone unsubscribe wait_is_over
unsubscribe-IsSilent thread id ms b b' later came over outside =
    let marked : has id b'.removed ≡ true =
      subst (λ s. HasDone id s.0 s.1) came (moves-HasDone thread id ms looking b tt) in
    let silent : IsSilent id (times id b'.started) b' = (marked, ground arith, refl) in
    let (m, r, c) = run-IsSilent later id (times id b'.started) b' silent in (r, c)
