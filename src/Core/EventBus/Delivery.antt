-- ===== src/Core/EventBus/Delivery.antt =====
-- What publish of src/core/event_bus.cpp delivers.
use semiconductor_metrology.Base.{
  ℕ, Bool, true, false, not, ◌&&◌, List, [], ◌∷◌, ◌≡◌, refl, arith, ◌∙◌, sym, ap, subst,
}
use semiconductor_metrology.Core.EventBus.{
  EventBus, has, drop_one, of_type, update, publish, next_round, call_ends, Frame, between, calling,
  Action, publish_action, next_action, end_action, step, run,
}

-- The actions of a thread whose loop has these subscribers left, up to the return of publish.
unfoldable pub rounds : ℕ → List ℕ → List Action
rounds thread [] = next_action thread ∷ []
rounds thread (id ∷ ids) = next_action thread ∷ end_action thread ∷ rounds thread ids

-- None of these is removed.
unfoldable pub live : List ℕ → List ℕ → Bool
live [] removed = true
live (id ∷ ids) removed = not (has id removed) && live ids removed

-- The calls of these, one after the other, in front of the earlier ones.
unfoldable pub onto : List ℕ → List ℕ → List ℕ
onto [] started = started
onto (id ∷ ids) started = onto ids (id ∷ started)

pub Delivered : ℕ → List ℕ → List Frame → EventBus → EventBus → Type 0
Delivered thread ids outer b e =
    (e.started ≡ onto ids b.started) × (e.frames thread ≡ outer) × (e.running ≡ b.running)

update_same : (thread : ℕ) (xs : List Frame) (f : ℕ → List Frame) → update thread xs f thread ≡ xs
unfolding update
update_same thread xs f = ground arith

drop_one_first : (id : ℕ) (xs : List ℕ) → drop_one id (id ∷ xs) ≡ xs
unfolding drop_one
drop_one_first id xs = ground arith

-- The bus after the call of a handler has started.
abbrev in_call : ℕ → ℕ → List ℕ → List Frame → EventBus → EventBus
in_call thread id ids outer b = record b {
  frames = update thread (calling id ids ∷ outer) b.frames;
  running = id ∷ b.running;
  started = id ∷ b.started;
}

starts :
    (thread id : ℕ) (ids : List ℕ) (outer : List Frame) (b : EventBus)
    → has id b.removed ≡ false
    → next_round thread (between (id ∷ ids) ∷ outer) b ≡ in_call thread id ids outer b
unfolding next_round
starts thread id ids outer b l = ground arith

abbrev after_call : ℕ → ℕ → List ℕ → List Frame → EventBus → EventBus
after_call thread id ids outer b = record b {
  frames = update thread (between ids ∷ outer) (update thread (calling id ids ∷ outer) b.frames);
  running = drop_one id (id ∷ b.running);
  started = id ∷ b.started;
}

one_round :
    (thread id : ℕ) (ids : List ℕ) (outer : List Frame) (b : EventBus)
    → b.frames thread ≡ between (id ∷ ids) ∷ outer
    → has id b.removed ≡ false
    → step (end_action thread) (step (next_action thread) b) ≡ after_call thread id ids outer b
unfolding step call_ends
one_round thread id ids outer b f l =
    ap (λ x. call_ends thread (x.frames thread) x)
      (ap (λ fs. next_round thread fs b) f ∙ starts thread id ids outer b l)
    ∙ ap (λ fs. call_ends thread fs (in_call thread id ids outer b))
        (update_same thread (calling id ids ∷ outer) b.frames)

last_round :
    (thread : ℕ) (outer : List Frame) (b : EventBus)
    → b.frames thread ≡ between [] ∷ outer
    → step (next_action thread) b ≡ record b { frames = update thread outer b.frames }
unfolding step next_round
last_round thread outer b f = ap (λ fs. next_round thread fs b) f

delivers :
    (thread : ℕ) (ids : List ℕ) (outer : List Frame) (b : EventBus)
    → b.frames thread ≡ between ids ∷ outer
    → live ids b.removed ≡ true
    → Delivered thread ids outer b (run (rounds thread ids) b)
unfolding Delivered run rounds live onto
delivers thread [] outer b f l =
    subst (λ e. Delivered thread [] outer b e) (sym (last_round thread outer b f))
      (refl, update_same thread outer b.frames, refl)
delivers thread (id ∷ ids) outer b f l =
    let (started, frames, running) =
      delivers thread ids outer (after_call thread id ids outer b)
        (update_same thread (between ids ∷ outer) (update thread (calling id ids ∷ outer) b.frames))
        (ground arith) in
    subst (λ e. Delivered thread (id ∷ ids) outer b (run (rounds thread ids) e))
      (sym (one_round thread id ids outer b f (ground arith)))
      (started, frames, running ∙ drop_one_first id b.running)

-- A thread that is in no publish call publishes an event, no other thread comes between, and none of the subscribers of its type is removed: their handlers are called
-- once each, in the order of the subscriptions, and then publish has returned and no call of
-- its own is in flight.
pub publish-Delivered :
    (thread type : ℕ) (b : EventBus)
    → b.frames thread ≡ []
    → live (of_type type b.subscribers) b.removed ≡ true
    → Delivered thread
        (of_type type b.subscribers)
        []
        b
        (run (publish_action thread type ∷ rounds thread (of_type type b.subscribers)) b)
unfolding run Delivered step publish
publish-Delivered thread type b f l =
    subst (λ e. Delivered thread ids [] b (run (rounds thread ids) e)) (sym begun)
      (delivers thread ids [] (record b { frames = update thread (between ids ∷ []) b.frames })
        (update_same thread (between ids ∷ []) b.frames) l)
  where
    ids : List ℕ
    ids = of_type type b.subscribers

    begun :
        step (publish_action thread type) b
        ≡ record b { frames = update thread (between ids ∷ []) b.frames }
    begun = ap (λ fs. publish thread type fs b) f
