-- ===== src/Core/Ring/Producing.antt =====
-- The producer's actions on the ring of include/ssim/core/spsc_ring_queue.hpp.
use semiconductor_metrology.Base.{
  ℕ, suc, ◌+◌, ◌%◌, ◌≤◌, ◌<◌, Bool, List, [], ◌∷◌, ◌++◌, Option, some, ◌≡◌, refl, sym, ap, subst,
  ◌∙◌, arith, length, length-append,
}
use semiconductor_metrology.Core.Queue.{BackpressurePolicy, block, drop_newest}
use semiconductor_metrology.Core.Ring.{
  Ring, Producer, away, retrying, trying, placing, publishing, Consumer, looking, taking, releasing,
  next, write, load_tail, has_room, no_room, try_push, try_room, check_closed, begin_push, retry,
  place, publish,
}
use semiconductor_metrology.Core.Ring.Slots.{write_same, Holds-write_behind, Holds-snoc}
use semiconductor_metrology.Core.Ring.Invariant.{
  AtProducer, AtConsumer, Inv, Good, if_Good, room, load_tail-Indices, slot_of,
}

module _ {A : Type 0} where
  -- Only the producer's place, and what the invariant does not read, change.
  pub with_producer :
      (r : Ring A) (q : List A) (closed : Bool) (dropped : ℕ) (p : Producer A) (v : Inv r q)
      → AtProducer p r.slots r.size (v.t + length q) (v.t + length q < v.c + r.capacity)
      → Inv (record r { closed = closed; dropped = dropped; producer = p }) q
  with_producer r q closed dropped p v h = record {
    t = v.t;
    c = v.c;
    d = v.d;
    indices = v.indices;
    at_producer = h;
    at_consumer = v.at_consumer;
  }

  pub loaded_tail :
      (r : Ring A) (q : List A) → Inv r q → Inv (record (load_tail r) { producer = away }) q
  unfolding AtProducer
  loaded_tail r q v =
      let (c, i) = load_tail-Indices r v.t v.c v.d (length q) v.indices in
      record { t = v.t; c = c; d = v.d; indices = i; at_producer = tt; at_consumer = v.at_consumer }

  try_room-Good :
      (item : A) (r : Ring A) (q : List A)
      → Inv (record r { producer = away }) q
      → Good q (try_room item r)
  unfolding Good try_room no_room AtProducer
  try_room-Good item r q w =
      if_Good q (has_room r) _ _
        (λ h.
          with_producer _ q r.closed r.dropped (placing item) w
            (room (record r { producer = away }) w.t w.c w.d (length q) w.indices h))
        (λ h. by_policy r.policy)
    where
      by_policy : (policy : BackpressurePolicy) → Good q (no_room policy item r)
      by_policy drop_newest =
          with_producer (record r { producer = away }) q r.closed (next r.dropped) away w tt
      by_policy block =
          with_producer (record r { producer = away }) q r.closed r.dropped (retrying item) w tt

  pub try_push-Good :
      (r : Ring A) (q : List A) (p : Producer A)
      → Inv (record r { producer = p }) q
      → Good q (try_push p (record r { producer = p }))
  unfolding Good try_push
  try_push-Good r q (trying x) v =
      try_room-Good x (load_tail (record r { producer = trying x })) q
        (loaded_tail (record r { producer = trying x }) q v)
  try_push-Good r q away v = v
  try_push-Good r q (retrying x) v = v
  try_push-Good r q (placing x) v = v
  try_push-Good r q (publishing x) v = v

  pub behind_consumer :
      (k : Consumer A) (slots : ℕ → Option A) (size t d h : ℕ) (q : List A) (v : Option A)
      → t + length q ≤ h
      → h < t + size
      → AtConsumer k slots size t d q
      → AtConsumer k (write (h % size) v slots) size t d q
  unfolding AtConsumer
  behind_consumer away slots size t d h q v l u a = Holds-write_behind size slots t h q v l u a
  behind_consumer (looking b) slots size t d h q v l u a =
      Holds-write_behind size slots t h q v l u a
  behind_consumer taking slots size t d h q v l u (lt, a) =
      (lt, Holds-write_behind size slots t h q v l u a)
  behind_consumer (releasing x) slots size t d h q v l u (lt, rest, e, a) =
      let e' : length q ≡ suc (length rest) = ap length e in
      (
        lt,
        rest,
        e,
        Holds-write_behind size slots (suc t) h rest v (omega (arith, e', l)) (omega (arith, u)) a,
      )

  pub more_consumer :
      (k : Consumer A) (slots : ℕ → Option A) (size t d h : ℕ) (q : List A) (x : A)
      → h ≡ t + length q
      → slots (h % size) ≡ some x
      → AtConsumer k slots size t d q
      → AtConsumer k slots size t d (q ++ (x ∷ []))
  unfolding AtConsumer
  more_consumer away slots size t d h q x p e a = Holds-snoc size slots t h q x p a e
  more_consumer (looking b) slots size t d h q x p e a = Holds-snoc size slots t h q x p a e
  more_consumer taking slots size t d h q x p e (lt, a) = (lt, Holds-snoc size slots t h q x p a e)
  more_consumer (releasing y) slots size t d h q x p e (lt, rest, f, a) =
      let f' : length q ≡ suc (length rest) = ap length f in
      (
        lt,
        rest ++ (x ∷ []),
        ap (λ l. l ++ (x ∷ [])) f,
        Holds-snoc size slots (suc t) h rest x (omega (arith, f', p)) a e,
      )

  pub place-Good :
      (r : Ring A) (q : List A) (p : Producer A)
      → Inv (record r { producer = p }) q
      → Good q (place p (record r { producer = p }))
  unfolding Good place AtProducer
  place-Good r q away v = v
  place-Good r q (retrying x) v = v
  place-Good r q (trying x) v = v
  place-Good r q (publishing x) v = v
  place-Good r q (placing x) v =
      let e =
        slot_of r v.t v.c v.d (length q) r.head (v.t + length q) v.indices v.indices.head_is in
      let room : v.t + length q < v.c + r.capacity = v.at_producer in
      record {
        t = v.t;
        c = v.c;
        d = v.d;
        indices = v.indices;
        at_producer = (
          ap (λ i. write (r.head % r.size) (some x) r.slots i) (sym e)
              ∙ write_same r.size r.slots (r.head % r.size) (some x),
          room,
        );
        at_consumer =
            subst (λ i. AtConsumer r.consumer (write i (some x) r.slots) r.size v.t v.d q) (sym e)
              (behind_consumer r.consumer r.slots r.size v.t v.d (v.t + length q) q (some x)
                (omega arith) (omega (arith, room, v.indices.fits, v.indices.behind))
                v.at_consumer);
      }

  pub publish-Good :
      (r : Ring A) (q : List A) (p : Producer A)
      → Inv (record r { producer = p }) q
      → Good q (publish p (record r { producer = p }))
  unfolding Good publish AtProducer
  publish-Good r q away v = v
  publish-Good r q (retrying x) v = v
  publish-Good r q (trying x) v = v
  publish-Good r q (placing x) v = v
  publish-Good r q (publishing x) v =
      let room : v.t + length q < v.c + r.capacity = v.at_producer.1 in
      let more : length (q ++ (x ∷ [])) ≡ length q + 1 = length-append q (x ∷ []) in
      record {
        t = v.t;
        c = v.c;
        d = v.d;
        indices = rw (more) (record {
          rounds = v.indices.rounds;
          fits = v.indices.fits;
          small = v.indices.small;
          tail_is = v.indices.tail_is;
          head_is = omega (arith, v.indices.head_is);
          cached_tail_is = v.indices.cached_tail_is;
          cached_head_is = v.indices.cached_head_is;
          behind = v.indices.behind;
          within = omega (arith, room);
          seen = v.indices.seen;
          stored = omega (arith, v.indices.stored);
        });
        at_producer = tt;
        at_consumer =
            more_consumer r.consumer r.slots r.size v.t v.d (v.t + length q) q x refl
              v.at_producer.0 v.at_consumer;
      }

  check_closed-Good : (item : A) (r : Ring A) (q : List A) → Inv r q → Good q (check_closed item r)
  unfolding Good check_closed AtProducer
  check_closed-Good item r q v =
      if_Good q r.closed _ _ (λ e. with_producer r q r.closed r.dropped away v tt)
        (λ e. with_producer r q r.closed r.dropped (trying item) v tt)

  pub begin_push-Good :
      (item : A) (r : Ring A) (q : List A) (p : Producer A)
      → Inv (record r { producer = p }) q
      → Good q (begin_push item p (record r { producer = p }))
  unfolding begin_push Good
  begin_push-Good item r q away v = check_closed-Good item (record r { producer = away }) q v
  begin_push-Good item r q (retrying x) v = v
  begin_push-Good item r q (trying x) v = v
  begin_push-Good item r q (placing x) v = v
  begin_push-Good item r q (publishing x) v = v

  pub retry-Good :
      (r : Ring A) (q : List A) (p : Producer A)
      → Inv (record r { producer = p }) q
      → Good q (retry p (record r { producer = p }))
  unfolding retry Good
  retry-Good r q (retrying x) v = check_closed-Good x (record r { producer = retrying x }) q v
  retry-Good r q away v = v
  retry-Good r q (trying x) v = v
  retry-Good r q (placing x) v = v
  retry-Good r q (publishing x) v = v
