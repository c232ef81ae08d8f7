-- ===== src/Core/Ring/Ended.antt =====
-- std::nullopt from pop of include/ssim/core/spsc_ring_queue.hpp: there will never be another item, if
-- the producer is not within a push.
use semiconductor_metrology.Base.{
  ℕ, ◌^◌, ◌≤◌, true, List, [], ◌∷◌, ◌++◌, Option, none, some, ◌≡◌, refl, ap, subst, ◌∙◌, arith,
  append-nil,
}
use semiconductor_metrology.Core.Queue.{BackpressurePolicy}
use semiconductor_metrology.Core.Ring.{
  Ring, Producer, away, Consumer, looking, at_least_one, nothing, refused, ended, pushed, popped,
  After, no_room, try_push, try_room, check_closed, begin_push, retry, place, publish, try_pop,
  spin, look, look_again, take_out, take, release, Action, step, Log, note, run,
}
use semiconductor_metrology.Core.Ring.Invariant.{Inv}
use semiconductor_metrology.Core.Ring.Fifo.{Looks, Between, Reaches, fresh, run-fresh-Reaches}

module _ {A : Type 0} where
  unfoldable pub IsAway : Producer A → Type 0
  IsAway away = Unit
  IsAway _ = ⊥

  IsIdle : Consumer A → Type 0
  IsIdle away = Unit
  IsIdle (looking b) = Unit
  IsIdle _ = ⊥

  -- Nothing can happen any more.
  Done : Ring A → Type 0
  Done r =
      (r.closed ≡ true)
      × IsAway r.producer
      × IsIdle r.consumer
      × (r.head ≡ r.tail)
      × (r.cached_head ≡ r.tail)

  DoneAfter : Option (After A) → Type 0
  DoneAfter none = ⊥
  DoneAfter (some (r, pushed x)) = ⊥
  DoneAfter (some (r, popped x)) = ⊥
  DoneAfter (some (r, _)) = Done r

  step-Done : (a : Action A) (r : Ring A) → Done r → DoneAfter (step a r)
  unfolding Done DoneAfter IsAway IsIdle step begin_push retry place publish spin look look_again
      take take_out release check_closed try_push try_room try_pop no_room
  step-Done a r d = ground arith

  -- The items that were taken and given are these.
  unfoldable pub Unchanged : List A → List A → Option (Log A) → Type 0
  Unchanged taken given none = ⊥
  Unchanged taken given (some l) = (l.taken ≡ taken) × (l.given ≡ given)

  run-Done :
      (actions : List (Action A)) (l : Log A)
      → Done l.ring
      → Unchanged l.taken l.given (run actions l)
  unfolding run Unchanged DoneAfter
  run-Done [] l d = (refl, refl)
  run-Done (a ∷ later) l d = by_step (step a l.ring) (step-Done a l.ring d) (run-Done later)
    where
      by_step :
          (o : Option (After A))
          → DoneAfter o
          → ((l : Log A) → Done l.ring → Unchanged l.taken l.given (run later l))
          → Unchanged l.taken l.given
              (elim o [ none ↦ none | some after ↦ run later (note after l) ])
      by_step none d rest = elim d [ ]
      by_step (some (r, nothing)) d rest = rest (record l { ring = r }) d
      by_step (some (r, refused)) d rest = rest (record l { ring = r }) d
      by_step (some (r, ended)) d rest = rest (record l { ring = r }) d
      by_step (some (r, pushed x)) d rest = elim d [ ]
      by_step (some (r, popped x)) d rest = elim d [ ]

  look_again-Done :
      (r : Ring A)
      → Looks r.consumer r.closed
      → IsAway r.producer
      → (look_again r.consumer r).1 ≡ ended
      → Done (look_again r.consumer r).0 × (r.head ≡ r.tail)
  unfolding Done IsAway IsIdle Looks look_again try_pop
  look_again-Done r k p e = ground arith

  none_wait : (r : Ring A) (waiting : List A) → Inv r waiting → r.head ≡ r.tail → waiting ≡ []
  none_wait r [] v e = refl
  none_wait r (x ∷ xs) v e =
      let no : ⊥ = omega (
        arith, e, v.indices.head_is, v.indices.tail_is, v.indices.within, v.indices.small,
        v.indices.behind,
      ) in
      elim no [ ]

  -- Let a new ring with a capacity of at most 2 ^ 63 come to a state in which the producer is not within a push,
  -- and let pop_blocking give std::nullopt there. Then pop has given all that push took, and whatever
  -- actions follow, push takes nothing more and pop gives nothing more.
  pub ended_is_final :
      (capacity : ℕ) (policy : BackpressurePolicy) (actions later : List (Action A)) (l : Log A)
      → capacity ≤ 2 ^ 63
      → run actions (fresh capacity policy) ≡ some l
      → IsAway l.ring.producer
      → (look_again l.ring.consumer l.ring).1 ≡ ended
      → (l.taken ≡ l.given)
        × Unchanged l.taken l.given
            (run later (record l { ring = (look_again l.ring.consumer l.ring).0 }))
  unfolding Reaches Between
  ended_is_final capacity policy actions later l h e p o =
      let (waiting, (v, eq, c, k)) =
        subst (Reaches (at_least_one capacity)) e (run-fresh-Reaches capacity policy actions h) in
      let (done, same) = look_again-Done l.ring k p o in
      (
        eq ∙ ap (λ w. l.given ++ w) (none_wait l.ring waiting v same) ∙ append-nil l.given,
        run-Done later (record l { ring = (look_again l.ring.consumer l.ring).0 }) done,
      )
