-- ===== src/Core/Ring.antt =====
-- SpscRingQueue of include/ssim/core/spsc_ring_queue.hpp: one producer and one consumer thread. Each
-- action below is one access of an atomic that the other thread writes, or of a slot, with what the
-- thread does on its own up to the next; actions of the two threads, and close, come in any order.
-- An index is a std::size_t; the size of the ring is a power of two, so that `& mask_` is `%`. The
-- spinning, the flags and the condition variables decide when a thread tries again: here it may
-- always try again.
pub mod Slots
pub mod Index
pub mod Invariant
pub mod Producing
pub mod Consuming
pub mod Fifo
pub mod Ended
use semiconductor_metrology.Base.{
  ℕ, zero, suc, ◌+◌, ◌-◌, ◌*◌, ◌%◌, ◌^◌, Bool, true, false, List, [], ◌∷◌, ◌++◌, Option, none, some,
  ltb, leb, ◌==◌, if◌then◌else◌,
}
use semiconductor_metrology.Core.Queue.{BackpressurePolicy, block, drop_newest}

-- Where the producer is in push, and its item: not in a call; in push_blocking, between two tries; having found
-- the queue open;
-- about to place the item; about to store head_.
pub data Producer {ℓ} (A : Type ℓ) : Type ℓ where
  away : Producer A
  retrying trying placing publishing : A → Producer A

-- Where the consumer is in pop: not in a call; in pop_blocking, having read closed_; about to take
-- the item out of the slot; about to store tail_, with the item in hand.
pub data Consumer {ℓ} (A : Type ℓ) : Type ℓ where
  away : Consumer A
  looking : Bool → Consumer A
  taking : Consumer A
  releasing : A → Consumer A

pub record Ring {ℓ} (A : Type ℓ) : Type ℓ where
  pub capacity : ℕ
  pub policy : BackpressurePolicy
  pub size : ℕ
  pub slots : ℕ → Option A
  pub head : ℕ
  pub cached_tail : ℕ
  pub tail : ℕ
  pub cached_head : ℕ
  pub closed : Bool
  pub dropped : ℕ
  pub producer : Producer A
  pub consumer : Consumer A

-- `p <<= 1` while p < n: the fuel is the number of doublings that stay within 63 bits.
unfoldable pub double_up : ℕ → ℕ → ℕ → ℕ
double_up zero p n = p
double_up (suc fuel) p n =
    let rest = double_up fuel (p * 2 % 2 ^ 64) n in if ltb p n then rest else p

unfoldable pub round_up_to_power_of_two : ℕ → ℕ
unfolding double_up
round_up_to_power_of_two n = double_up 63 1 n

abbrev pub at_least_one : ℕ → ℕ
at_least_one capacity = if ltb 1 capacity then capacity else 1

unfoldable pub new {ℓ} : {A : Type ℓ} → ℕ → BackpressurePolicy → Ring A
unfolding round_up_to_power_of_two
new capacity policy = record {
  capacity = at_least_one capacity;
  policy = policy;
  size = round_up_to_power_of_two (at_least_one capacity);
  slots = λ i. none;
  head = 0;
  cached_tail = 0;
  tail = 0;
  cached_head = 0;
  closed = false;
  dropped = 0;
  producer = away;
  consumer = away;
}

-- Differences and increments of a std::size_t.
abbrev pub minus : ℕ → ℕ → ℕ
minus a b = (a + 2 ^ 64 - b) % 2 ^ 64

abbrev pub next : ℕ → ℕ
next a = (a + 1) % 2 ^ 64

unfoldable pub write {ℓ} : {A : Type ℓ} → ℕ → Option A → (ℕ → Option A) → ℕ → Option A
write i v slots j = if j == i then v else slots j

-- try_push up to the slot: is there room, by the cached tail or else by the tail itself?
abbrev pub load_tail {ℓ} : {A : Type ℓ} → Ring A → Ring A
load_tail r = record r {
  cached_tail = if leb r.capacity (minus r.head r.cached_tail) then r.tail else r.cached_tail;
}

abbrev pub has_room {ℓ} : {A : Type ℓ} → Ring A → Bool
has_room r = ltb (minus r.head r.cached_tail) r.capacity

-- What an action ends: a call of push, which took its item or refused it, or a call of pop, which gave
-- an item or std::nullopt.
pub data Outcome {ℓ} (A : Type ℓ) : Type ℓ where
  nothing refused ended : Outcome A
  pushed popped : A → Outcome A

abbrev pub After {ℓ} : Type ℓ → Type ℓ
After A = Ring A × Outcome A

-- What a push does that found no room.
unfoldable pub no_room {ℓ} : {A : Type ℓ} → BackpressurePolicy → A → Ring A → After A
no_room drop_newest item r = (record r { dropped = next r.dropped; producer = away }, refused)
no_room block item r = (record r { producer = retrying item }, nothing)

-- The test of closed_ at the start of push and in push_blocking.
unfoldable pub check_closed {ℓ} : {A : Type ℓ} → A → Ring A → After A
check_closed item r =
    if r.closed
    then (record r { producer = away }, refused)
    else (record r { producer = trying item }, nothing)

unfoldable pub begin_push {ℓ} : {A : Type ℓ} → A → Producer A → Ring A → After A
unfolding check_closed
begin_push item away r = check_closed item r
begin_push item _ r = (r, nothing)

unfoldable pub retry {ℓ} : {A : Type ℓ} → Producer A → Ring A → After A
unfolding check_closed
retry (retrying item) r = check_closed item r
retry _ r = (r, nothing)

unfoldable pub try_room {ℓ} : {A : Type ℓ} → A → Ring A → After A
unfolding no_room
try_room item r =
    if has_room r then (record r { producer = placing item }, nothing) else no_room r.policy item r

unfoldable pub try_push {ℓ} : {A : Type ℓ} → Producer A → Ring A → After A
unfolding try_room
try_push (trying item) r = try_room item (load_tail r)
try_push _ r = (r, nothing)

unfoldable pub place {ℓ} : {A : Type ℓ} → Producer A → Ring A → After A
unfolding write
place (placing item) r = (
  record r { slots = write (r.head % r.size) (some item) r.slots; producer = publishing item },
  nothing,
)
place _ r = (r, nothing)

unfoldable pub publish {ℓ} : {A : Type ℓ} → Producer A → Ring A → After A
publish (publishing item) r = (record r { head = next r.head; producer = away }, pushed item)
publish _ r = (r, nothing)

-- try_pop up to the slot, and what pop does where there is no item.
abbrev pub load_head {ℓ} : {A : Type ℓ} → Ring A → Ring A
load_head r = record r { cached_head = if r.tail == r.cached_head then r.head else r.cached_head }

unfoldable pub try_pop {ℓ} : {A : Type ℓ} → Outcome A → Ring A → After A
try_pop otherwise r =
    let r = load_head r in
    if r.tail == r.cached_head
    then (record r { consumer = away }, otherwise)
    else (record r { consumer = taking }, nothing)

unfoldable pub spin {ℓ} : {A : Type ℓ} → Consumer A → Ring A → After A
unfolding try_pop
spin away r = try_pop nothing r
spin _ r = (r, nothing)

-- pop_blocking reads closed_ first, and then looks at the ring.
unfoldable pub look {ℓ} : {A : Type ℓ} → Consumer A → Ring A → After A
look away r = (record r { consumer = looking r.closed }, nothing)
look _ r = (r, nothing)

unfoldable pub look_again {ℓ} : {A : Type ℓ} → Consumer A → Ring A → After A
unfolding try_pop
look_again (looking was_closed) r = try_pop (if was_closed then ended else nothing) r
look_again _ r = (r, nothing)

-- `*slot` of an empty slot is undefined: then there is no state after it.
unfoldable pub take_out {ℓ} : {A : Type ℓ} → Option A → Ring A → Option (After A)
unfolding write
take_out none r = none
take_out (some item) r =
    some (
      record r { slots = write (r.tail % r.size) none r.slots; consumer = releasing item },
      nothing,
    )

unfoldable pub take {ℓ} : {A : Type ℓ} → Consumer A → Ring A → Option (After A)
unfolding take_out
take taking r = take_out (r.slots (r.tail % r.size)) r
take _ r = some (r, nothing)

unfoldable pub release {ℓ} : {A : Type ℓ} → Consumer A → Ring A → After A
release (releasing item) r = (record r { tail = next r.tail; consumer = away }, popped item)
release _ r = (r, nothing)

abbrev pub close {ℓ} : {A : Type ℓ} → Ring A → After A
close r = (record r { closed = true }, nothing)

pub data Action {ℓ} (A : Type ℓ) : Type ℓ where
  push_action : A → Action A
  retry_action try_action place_action publish_action : Action A
  spin_action look_action look_again_action take_action release_action close_action : Action A

-- An action of a thread that is elsewhere changes nothing.
unfoldable pub step {ℓ} : {A : Type ℓ} → Action A → Ring A → Option (After A)
unfolding begin_push retry try_push place publish spin look look_again take release
step (push_action item) r = some (begin_push item r.producer r)
step retry_action r = some (retry r.producer r)
step try_action r = some (try_push r.producer r)
step place_action r = some (place r.producer r)
step publish_action r = some (publish r.producer r)
step spin_action r = some (spin r.consumer r)
step look_action r = some (look r.consumer r)
step look_again_action r = some (look_again r.consumer r)
step take_action r = take r.consumer r
step release_action r = some (release r.consumer r)
step close_action r = some (close r)

-- The items that push has taken and that pop has given, the first one first.
pub record Log {ℓ} (A : Type ℓ) : Type ℓ where
  pub ring : Ring A
  pub given : List A
  pub taken : List A

abbrev pub note {ℓ} : {A : Type ℓ} → After A → Log A → Log A
note (r, pushed item) l = record l { ring = r; taken = l.taken ++ (item ∷ []) }
note (r, popped item) l = record l { ring = r; given = l.given ++ (item ∷ []) }
note (r, _) l = record l { ring = r }

unfoldable pub run {ℓ} : {A : Type ℓ} → List (Action A) → Log A → Option (Log A)
unfolding step
run [] l = some l
run (a ∷ later) l = elim (step a l.ring) [ none ↦ none | some after ↦ run later (note after l) ]
