-- ===== src/Core/Ring/Consuming.antt =====
-- The consumer's actions on the ring of include/ssim/core/spsc_ring_queue.hpp.
use semiconductor_metrology.Base.{
  ℕ, suc, ◌+◌, ◌%◌, ◌^◌, ◌≤◌, ◌<◌, Bool, true, false, List, [], ◌∷◌, Option, none, some, ◌≡◌, refl,
  sym, ap, subst, ◌∙◌, arith, length, ◌==◌, if◌then◌else◌,
}
use semiconductor_metrology.Core.Ring.{
  Ring, Producer, away, retrying, trying, placing, publishing, Consumer, looking, taking, releasing,
  write, Outcome, nothing, ended, load_head, try_pop, spin, look, look_again, take_out, take,
  release,
}
use semiconductor_metrology.Core.Ring.Index.{apart}
use semiconductor_metrology.Core.Ring.Slots.{Holds, write_other, Holds-write_before}
use semiconductor_metrology.Core.Ring.Invariant.{
  AtProducer, AtConsumer, Inv, Good, IsQuiet, Taken, if_Good, room, empty, load_head-Indices,
  slot_of, quiet-Good,
}

module _ {A : Type 0} where
  pub try_pop-Good :
      (r : Ring A) (q : List A) (o : Outcome A)
      → IsQuiet o
      → Inv (record r { consumer = away }) q
      → Good q (try_pop o r)
  unfolding try_pop AtConsumer Good
  try_pop-Good r q o h v =
      let (d, le, i) = load_head-Indices r v.t v.c v.d (length q) v.indices in
      if_Good q (r.tail == (load_head r).cached_head) _ _
        (λ e. quiet-Good _ q o h (record {
          t = v.t;
          c = v.c;
          d = d;
          indices = i;
          at_producer = v.at_producer;
          at_consumer = v.at_consumer;
        }))
        (λ e. record {
          t = v.t;
          c = v.c;
          d = d;
          indices = i;
          at_producer = v.at_producer;
          at_consumer = (empty (load_head r) v.t v.c d (length q) i e, v.at_consumer);
        })

  pub emptied_producer :
      (p : Producer A) (slots : ℕ → Option A) (size t h capacity c : ℕ)
      → t < h
      → c ≤ t
      → capacity ≤ size
      → AtProducer p slots size h (h < c + capacity)
      → AtProducer p (write (t % size) none slots) size h (h < c + capacity)
  unfolding AtProducer
  emptied_producer away slots size t h capacity c l b f a = a
  emptied_producer (retrying x) slots size t h capacity c l b f a = a
  emptied_producer (trying x) slots size t h capacity c l b f a = a
  emptied_producer (placing x) slots size t h capacity c l b f a = a
  emptied_producer (publishing x) slots size t h capacity c l b f (e, room) = (
    write_other size slots (t % size) (h % size) none
          (λ g. apart size t h l (omega (arith, room)) (sym g))
        ∙ e,
    room,
  )

  pub take-Good :
      (r : Ring A) (q : List A) (k : Consumer A)
      → Inv (record r { consumer = k }) q
      → Taken q (take k (record r { consumer = k }))
  unfolding Taken Good take take_out AtConsumer Holds
  take-Good r q away v = v
  take-Good r q (looking b) v = v
  take-Good r q (releasing x) v = v
  take-Good r [] taking v =
      let lt : v.t < v.d = v.at_consumer.0 in
      let no : ⊥ = omega (arith, lt, v.indices.stored) in elim no [ ]
  take-Good r (x ∷ rest) taking v =
      subst (λ o. Taken (x ∷ rest) (take_out o (record r { consumer = taking }))) (sym full)
        (record {
          t = v.t;
          c = v.c;
          d = v.d;
          indices = v.indices;
          at_producer =
              subst
                (λ i.
                  AtProducer r.producer (write i none r.slots) r.size (v.t + length (x ∷ rest))
                    (v.t + length (x ∷ rest) < v.c + r.capacity))
                (sym e)
                (emptied_producer r.producer r.slots r.size v.t (v.t + length (x ∷ rest)) r.capacity
                  v.c (omega arith) v.indices.behind v.indices.fits v.at_producer);
          at_consumer = (
            v.at_consumer.0,
            rest,
            refl,
            subst (λ i. Holds r.size (write i none r.slots) (suc v.t) rest) (sym e)
                (Holds-write_before r.size r.slots (suc v.t) v.t rest none (omega arith)
                  (omega (arith, v.indices.within, v.indices.behind, v.indices.fits))
                  v.at_consumer.1.1),
          );
        })
    where
      e : r.tail % r.size ≡ v.t % r.size
      e = slot_of r v.t v.c v.d (length (x ∷ rest)) r.tail v.t v.indices v.indices.tail_is

      full : r.slots (r.tail % r.size) ≡ some x
      full = ap r.slots e ∙ v.at_consumer.1.0

  pub release-Good :
      (r : Ring A) (q : List A) (k : Consumer A)
      → Inv (record r { consumer = k }) q
      → Good q (release k (record r { consumer = k }))
  unfolding Good release AtConsumer
  release-Good r q away v = v
  release-Good r q (looking b) v = v
  release-Good r q taking v = v
  release-Good r q (releasing x) v =
      let (lt, rest, e, later) = v.at_consumer in
      let n : length q ≡ suc (length rest) = ap length e in
      let same : v.t + length q ≡ suc v.t + length rest = omega (arith, n) in
      (
        rest,
        e,
        record {
          t = suc v.t;
          c = v.c;
          d = v.d;
          indices = record {
            rounds = v.indices.rounds;
            fits = v.indices.fits;
            small = v.indices.small;
            tail_is = omega (arith, v.indices.tail_is);
            head_is = v.indices.head_is ∙ ap (λ h. h % 2 ^ 64) same;
            cached_tail_is = v.indices.cached_tail_is;
            cached_head_is = v.indices.cached_head_is;
            behind = omega (arith, v.indices.behind);
            within = omega (arith, n, v.indices.within);
            seen = lt;
            stored = omega (arith, n, v.indices.stored);
          };
          at_producer =
              subst (λ h. AtProducer r.producer r.slots r.size h (h < v.c + r.capacity)) same
                v.at_producer;
          at_consumer = later;
        },
      )

  pub spin-Good :
      (r : Ring A) (q : List A) (k : Consumer A)
      → Inv (record r { consumer = k }) q
      → Good q (spin k (record r { consumer = k }))
  unfolding spin Good IsQuiet
  spin-Good r q away v = try_pop-Good (record r { consumer = away }) q nothing tt v
  spin-Good r q (looking b) v = v
  spin-Good r q taking v = v
  spin-Good r q (releasing x) v = v

  pub at_rest :
      (r : Ring A) (q : List A) (closed : Bool) (k : Consumer A) (v : Inv r q)
      → AtConsumer k r.slots r.size v.t v.d q
      → Inv (record r { closed = closed; consumer = k }) q
  at_rest r q closed k v h = record {
    t = v.t;
    c = v.c;
    d = v.d;
    indices = v.indices;
    at_producer = v.at_producer;
    at_consumer = h;
  }

  pub look-Good :
      (r : Ring A) (q : List A) (k : Consumer A)
      → Inv (record r { consumer = k }) q
      → Good q (look k (record r { consumer = k }))
  unfolding look Good AtConsumer
  look-Good r q away v = at_rest _ q r.closed (looking r.closed) v v.at_consumer
  look-Good r q (looking b) v = v
  look-Good r q taking v = v
  look-Good r q (releasing x) v = v

  pub look_again-Good :
      (r : Ring A) (q : List A) (k : Consumer A)
      → Inv (record r { consumer = k }) q
      → Good q (look_again k (record r { consumer = k }))
  unfolding look_again Good AtConsumer IsQuiet
  look_again-Good r q (looking b) v =
      try_pop-Good (record r { consumer = looking b }) q (if b then ended else nothing) (quiet b)
        (at_rest _ q r.closed away v v.at_consumer)
    where
      quiet : (b : Bool) → IsQuiet {A = A} (if b then ended else nothing)
      quiet true = tt
      quiet false = tt
  look_again-Good r q away v = v
  look_again-Good r q taking v = v
  look_again-Good r q (releasing x) v = v
