-- ===== src/Core/Ring/Fifo.antt =====
-- The ring of include/ssim/core/spsc_ring_queue.hpp is a FIFO, in whatever order its two threads and
-- close make their steps.
use semiconductor_metrology.Base.{
  ℕ, ◌^◌, ◌≤◌, Bool, true, List, [], ◌∷◌, ◌++◌, Option, none, some, ◌≡◌, refl, sym, ap, ◌∙◌, arith,
  length, append_assoc,
}
use semiconductor_metrology.Core.Queue.{BackpressurePolicy}
use semiconductor_metrology.Core.Ring.{
  Ring, Consumer, looking, new, at_least_one, nothing, refused, ended, pushed, popped, After,
  no_room, try_push, try_room, check_closed, begin_push, retry, place, publish, try_pop, spin, look,
  look_again, take_out, take, release, Action, push_action, retry_action, try_action, place_action,
  publish_action, spin_action, look_action, look_again_action, take_action, release_action,
  close_action, step, Log, note, run,
}
use semiconductor_metrology.Core.Ring.Index.{round_up}
use semiconductor_metrology.Core.Ring.Slots.{Holds}
use semiconductor_metrology.Core.Ring.Invariant.{AtProducer, AtConsumer, Inv, Good, Taken}
use semiconductor_metrology.Core.Ring.Producing.{
  begin_push-Good, retry-Good, try_push-Good, place-Good, publish-Good,
}
use semiconductor_metrology.Core.Ring.Consuming.{
  at_rest, spin-Good, look-Good, look_again-Good, take-Good, release-Good,
}

module _ {A : Type 0} where
  step-Good : (a : Action A) (r : Ring A) (q : List A) → Inv r q → Taken q (step a r)
  unfolding step Taken Good
  step-Good (push_action item) r q v = begin_push-Good item r q r.producer v
  step-Good retry_action r q v = retry-Good r q r.producer v
  step-Good try_action r q v = try_push-Good r q r.producer v
  step-Good place_action r q v = place-Good r q r.producer v
  step-Good publish_action r q v = publish-Good r q r.producer v
  step-Good spin_action r q v = spin-Good r q r.consumer v
  step-Good look_action r q v = look-Good r q r.consumer v
  step-Good look_again_action r q v = look_again-Good r q r.consumer v
  step-Good take_action r q v = take-Good r q r.consumer v
  step-Good release_action r q v = release-Good r q r.consumer v
  step-Good close_action r q v = at_rest r q true r.consumer v v.at_consumer

  SameCapacity : ℕ → Option (After A) → Type 0
  SameCapacity n none = Unit
  SameCapacity n (some after) = after.0.capacity ≡ n

  step-SameCapacity : (a : Action A) (r : Ring A) → SameCapacity r.capacity (step a r)
  unfolding SameCapacity step begin_push retry place publish spin look look_again take take_out
      release check_closed try_push try_room try_pop no_room
  step-SameCapacity a r = ground arith

  -- A consumer that has read closed_ as true finds it so from then on.
  unfoldable pub Looks : Consumer A → Bool → Type 0
  Looks (looking true) closed = closed ≡ true
  Looks _ closed = Unit

  LooksAfter : Option (After A) → Type 0
  LooksAfter none = Unit
  LooksAfter (some after) = Looks after.0.consumer after.0.closed

  step-LooksAfter : (a : Action A) (r : Ring A) → Looks r.consumer r.closed → LooksAfter (step a r)
  unfolding Looks LooksAfter step begin_push retry place publish spin look look_again take take_out
      release check_closed try_push try_room try_pop no_room
  step-LooksAfter a r h = ground arith

  -- `waiting` are the items between those taken and those given, in a ring of this capacity.
  unfoldable pub Between : ℕ → Log A → List A → Type 0
  Between n l waiting =
      Inv l.ring waiting
      × (l.taken ≡ l.given ++ waiting)
      × (l.ring.capacity ≡ n)
      × Looks l.ring.consumer l.ring.closed

  noted :
      (n : ℕ) (after : After A) (l : Log A) (q : List A)
      → Good q after
      → after.0.capacity ≡ n
      → Looks after.0.consumer after.0.closed
      → l.taken ≡ l.given ++ q
      → (waiting : List A) × Between n (note after l) waiting
  unfolding Between Good
  noted n (r, nothing) l q v c k e = (q, (v, e, c, k))
  noted n (r, refused) l q v c k e = (q, (v, e, c, k))
  noted n (r, ended) l q v c k e = (q, (v, e, c, k))
  noted n (r, pushed x) l q v c k e =
      (q ++ (x ∷ []), (v, ap (λ xs. xs ++ (x ∷ [])) e ∙ append_assoc l.given q (x ∷ []), c, k))
  noted n (r, popped x) l q (rest, f, v) c k e =
      (rest, (v, e ∙ ap (λ xs. l.given ++ xs) f ∙ sym (append_assoc l.given (x ∷ []) rest), c, k))

  unfoldable pub Reaches : ℕ → Option (Log A) → Type 0
  unfolding Between
  Reaches n none = ⊥
  Reaches n (some l) = (waiting : List A) × Between n l waiting

  run-Reaches :
      (actions : List (Action A)) (n : ℕ) (l : Log A) (q : List A)
      → Between n l q
      → Reaches n (run actions l)
  unfolding run Reaches Between Taken SameCapacity LooksAfter
  run-Reaches [] n l q b = (q, b)
  run-Reaches (a ∷ later) n l q (v, e, c, k) =
      by_step (step a l.ring) (step-Good a l.ring q v) (step-SameCapacity a l.ring)
        (step-LooksAfter a l.ring k) (λ l q b. run-Reaches later n l q b)
    where
      by_step :
          (o : Option (After A))
          → Taken q o
          → SameCapacity l.ring.capacity o
          → LooksAfter o
          → ((l : Log A) (q : List A) → Between n l q → Reaches n (run later l))
          → Reaches n (elim o [ none ↦ none | some after ↦ run later (note after l) ])
      by_step none h s k rest = elim h [ ]
      by_step (some after) h s k rest =
          let (waiting, b) = noted n after l q h (s ∙ c) k e in rest (note after l) waiting b

  abbrev pub fresh : ℕ → BackpressurePolicy → Log A
  fresh capacity policy = record { ring = new capacity policy; given = []; taken = [] }

  pub run-fresh-Reaches :
      (capacity : ℕ) (policy : BackpressurePolicy) (actions : List (Action A))
      → capacity ≤ 2 ^ 63
      → Reaches (at_least_one capacity) (run actions (fresh capacity policy))
  unfolding new Between Looks AtProducer AtConsumer Holds
  run-fresh-Reaches capacity policy actions h =
      let small : at_least_one capacity ≤ 2 ^ 63 = ground arith in
      let (rounds, fits) = round_up (at_least_one capacity) small in
      run-Reaches actions (at_least_one capacity) _ [] (
        record {
          t = 0;
          c = 0;
          d = 0;
          indices = record {
            rounds = rounds;
            fits = fits;
            small = small;
            tail_is = refl;
            head_is = refl;
            cached_tail_is = refl;
            cached_head_is = refl;
            behind = omega arith;
            within = omega arith;
            seen = omega arith;
            stored = omega arith;
          };
          at_producer = tt;
          at_consumer = tt;
        },
        refl,
        refl,
        tt,
      )

  -- What a run leads to: a state, with the items that wait in it.
  unfoldable pub Runs : ℕ → Option (Log A) → Type 0
  Runs n none = ⊥
  Runs n (some l) = (waiting : List A) × (l.taken ≡ l.given ++ waiting) × (length waiting ≤ n)

  Reaches→Runs : (n : ℕ) (o : Option (Log A)) → Reaches n o → Runs n o
  unfolding Reaches Runs Between
  Reaches→Runs n none h = h
  Reaches→Runs n (some l) (waiting, (v, e, c, k)) =
      (waiting, e, omega (arith, v.indices.within, v.indices.behind, c))

  -- From a new ring with a capacity of at most 2 ^ 63, the threads' actions and close in any order: no
  -- item is taken out of an empty slot, and the items that push took are those that pop gave, in the
  -- same order, followed by those that wait, which are never more than the capacity (at least 1).
  pub run-fresh-Runs :
      (capacity : ℕ) (policy : BackpressurePolicy) (actions : List (Action A))
      → capacity ≤ 2 ^ 63
      → Runs (at_least_one capacity) (run actions (fresh capacity policy))
  run-fresh-Runs capacity policy actions h =
      Reaches→Runs (at_least_one capacity) (run actions (fresh capacity policy))
        (run-fresh-Reaches capacity policy actions h)
