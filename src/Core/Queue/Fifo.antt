-- ===== src/Core/Queue/Fifo.antt =====
-- Histories of a BoundedQueue (include/ssim/core/queue.hpp) that any number of threads use: the mutex
-- puts the calls in an order.
use semiconductor_metrology.Base.{
  ℕ, ◌≤◌, ◌≡◌, refl, sym, ap, ◌∙◌, Bool, true, false, List, [], ◌∷◌, ◌++◌, Option, none, some,
  length, arith, append_assoc, append-nil, length-append,
}
use semiconductor_metrology.Core.Queue.{
  BackpressurePolicy, BoundedQueue, new, push, push_full, pop, pop_from, close,
}

module _ {ℓ} where
  pub data Call (A : Type ℓ) : Type ℓ where
    pushing : A → Call A
    popping : Call A
    closing : Call A

  -- The queue, the items that push took, and those that pop gave, in order.
  pub record History (A : Type ℓ) : Type ℓ where
    pub queue : BoundedQueue A
    pub accepted : List A
    pub taken : List A

  module _ {A : Type ℓ} where
    abbrev pub start : ℕ → BackpressurePolicy → History A
    start c p = record { queue = new c p; accepted = []; taken = [] }

    -- A call that waits changes nothing.
    unfoldable pub pushed : A → Option (BoundedQueue A × Bool) → History A → History A
    pushed item none h = h
    pushed item (some (q, true)) h = record h { queue = q; accepted = h.accepted ++ (item ∷ []) }
    pushed item (some (q, false)) h = record h { queue = q }

    unfoldable pub popped : Option (BoundedQueue A × Option A) → History A → History A
    popped none h = h
    popped (some (q, none)) h = record h { queue = q }
    popped (some (q, some item)) h = record h { queue = q; taken = h.taken ++ (item ∷ []) }

    unfoldable pub perform : Call A → History A → History A
    perform (pushing item) h = pushed item (push item h.queue) h
    perform popping h = popped (pop h.queue) h
    perform closing h = record h { queue = close h.queue }

    unfoldable pub run : List (Call A) → History A → History A
    run [] h = h
    run (call ∷ rest) h = run rest (perform call h)

    -- Nothing is lost, made up or overtaken, and the queue stays within its capacity.
    abbrev IsFifo : ℕ → History A → Type ℓ
    IsFifo c h =
        (h.accepted ≡ h.taken ++ h.queue.items)
        × (length h.queue.items ≤ c)
        × (h.queue.capacity ≡ c)

    pushing-IsFifo :
        (c : ℕ) (item : A) (h : History A) → IsFifo c h → IsFifo c (perform (pushing item) h)
    unfolding perform pushed push push_full
    pushing-IsFifo c item h f = ground (
      arith,
      append_assoc h.taken h.queue.items (item ∷ []),
      length-append h.queue.items (item ∷ []),
    )

    popping-IsFifo : (c : ℕ) (h : History A) → IsFifo c h → IsFifo c (perform popping h)
    unfolding perform popped pop pop_from
    popping-IsFifo c h f = go h.queue.items f.0 f.1
      where
        go :
            (items : List A)
            → h.accepted ≡ h.taken ++ items
            → length items ≤ c
            → IsFifo c (popped (pop_from items h.queue) h)
        go [] e l = ground arith
        go (x ∷ rest) e l = (e ∙ sym (append_assoc h.taken (x ∷ []) rest), omega arith, f.2)

    perform-IsFifo :
        (c : ℕ) (call : Call A) (h : History A) → IsFifo c h → IsFifo c (perform call h)
    unfolding perform close
    perform-IsFifo c (pushing item) h f = pushing-IsFifo c item h f
    perform-IsFifo c popping h f = popping-IsFifo c h f
    perform-IsFifo c closing h f = f

    run-IsFifo :
        (c : ℕ) (calls : List (Call A)) (h : History A) → IsFifo c h → IsFifo c (run calls h)
    unfolding run
    run-IsFifo c [] h f = f
    run-IsFifo c (call ∷ rest) h f = run-IsFifo c rest (perform call h) (perform-IsFifo c call h f)

    -- Over any history of calls of a new queue, the items that push took are those that pop gave,
    -- in the same order, followed by those in the queue, which are never more than its capacity.
    pub run-start-fifo :
        (c : ℕ) (p : BackpressurePolicy) (calls : List (Call A))
        → ((run calls (start c p)).accepted
            ≡ (run calls (start c p)).taken ++ (run calls (start c p)).queue.items)
          × (length (run calls (start c p)).queue.items ≤ c)
    run-start-fifo c p calls =
        let f = run-IsFifo c calls (start c p) (refl, omega arith, refl) in (f.0, f.1)

    -- What holds of a queue that is closed and empty: it stays so, and gives and takes nothing.
    abbrev IsDrained : List A → List A → History A → Type ℓ
    IsDrained accepted taken h =
        (h.queue.closed ≡ true) × (h.queue.items ≡ []) × (h.accepted ≡ accepted) × (h.taken ≡ taken)

    perform-IsDrained :
        {ins outs : List A} (call : Call A) (h : History A)
        → IsDrained ins outs h
        → IsDrained ins outs (perform call h)
    unfolding perform pushed popped push pop pop_from close
    perform-IsDrained (pushing item) h d = ground arith
    perform-IsDrained popping h d = ground arith
    perform-IsDrained closing h d = ground arith

    run-IsDrained :
        {ins outs : List A} (calls : List (Call A)) (h : History A)
        → IsDrained ins outs h
        → IsDrained ins outs (run calls h)
    unfolding run
    run-IsDrained [] h d = d
    run-IsDrained (call ∷ rest) h d =
        run-IsDrained rest (perform call h) (perform-IsDrained call h d)

    ended : (q q' : BoundedQueue A) → pop q ≡ some (q', none) → (q.closed ≡ true) × (q.items ≡ [])
    unfolding pop pop_from
    ended q q' e = ground arith

    -- Where pop gives std::nullopt, after any history of a new queue, every item that push took has
    -- been given, and no later call takes or gives another one.
    pub nullopt_is_final :
        (c : ℕ) (p : BackpressurePolicy) (before later : List (Call A)) (q : BoundedQueue A)
        → pop ((run before (start c p)).queue) ≡ some (q, none)
        → ((run before (start c p)).accepted ≡ (run before (start c p)).taken)
          × ((run later (run before (start c p))).accepted ≡ (run before (start c p)).accepted)
          × ((run later (run before (start c p))).taken ≡ (run before (start c p)).taken)
    nullopt_is_final c p before later q e =
        let h = run before (start c p) in
        let (shut, empty) = ended h.queue q e in
        let final = run-IsDrained later h (shut, empty, refl, refl) in
        (
          (run-start-fifo c p before).0 ∙ ap (◌++◌ h.taken) empty ∙ append-nil h.taken,
          final.2,
          final.3,
        )
