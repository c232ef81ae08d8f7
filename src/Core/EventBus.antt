-- ===== src/Core/EventBus.antt =====
-- EventBus of include/ssim/core/event_bus.hpp and src/core/event_bus.cpp. An event type is a number, and
-- so is a thread. Each action below is one critical section of a thread: under the bus lock, or
-- under the lock of one subscriber. A subscriber is known by its id; the calls of its handler
-- are the entries of `started`, newest first.
pub mod Silent
pub mod Delivery
use semiconductor_metrology.Base.{
  ℕ, zero, suc, ◌+◌, ◌%◌, ◌^◌, Bool, true, false, not, ◌&&◌, ◌||◌, List, [], ◌∷◌, ◌++◌, ◌==◌,
  if◌then◌else◌,
}

-- A publish call of a thread: between two rounds of its loop, or within the call of a handler, with the
-- subscribers that are left. What is calling, in all frames of a thread, is its t_executing.
pub data Frame : Type 0 where
  between : List ℕ → Frame
  calling : ℕ → List ℕ → Frame

pub record EventBus : Type 0 where
  -- subscribers_by_type_ and type_by_id_: the type and the id of each, the oldest first
  pub subscribers : List (ℕ × ℕ)
  pub next_id : ℕ
  -- the subscribers that unsubscribe has taken out of the table, and those that it has marked since
  pub erased : List ℕ
  pub removed : List ℕ
  -- one entry for each call in flight
  pub running : List ℕ
  -- of each thread, the publish calls that it is in, the innermost first
  pub frames : ℕ → List Frame
  pub started : List ℕ

abbrev pub new : EventBus
new = record {
  subscribers = [];
  next_id = 1;
  erased = [];
  removed = [];
  running = [];
  frames = λ thread. [];
  started = [];
}

unfoldable pub has : ℕ → List ℕ → Bool
has id [] = false
has id (x ∷ xs) = x == id || has id xs

-- One entry less, as of --running.
unfoldable pub drop_one : ℕ → List ℕ → List ℕ
drop_one id [] = []
drop_one id (x ∷ xs) = if x == id then xs else x ∷ drop_one id xs

unfoldable pub of_type : ℕ → List (ℕ × ℕ) → List ℕ
of_type type [] = []
of_type type ((t, id) ∷ rest) =
    let later = of_type type rest in if t == type then id ∷ later else later

unfoldable pub is_subscribed : ℕ → List (ℕ × ℕ) → Bool
is_subscribed id [] = false
is_subscribed id ((t, x) ∷ rest) = x == id || is_subscribed id rest

unfoldable pub erase : ℕ → List (ℕ × ℕ) → List (ℕ × ℕ)
erase id [] = []
erase id ((t, x) ∷ rest) = let later = erase id rest in if x == id then rest else (t, x) ∷ later

unfoldable pub update : ℕ → List Frame → (ℕ → List Frame) → ℕ → List Frame
update thread xs f t = if t == thread then xs else f t

unfoldable pub is_executing : ℕ → List Frame → Bool
is_executing id [] = false
is_executing id (between rest ∷ frames) = is_executing id frames
is_executing id (calling x rest ∷ frames) = x == id || is_executing id frames

-- subscribe_erased
unfoldable pub subscribe : ℕ → EventBus → EventBus
subscribe type b = record b {
  subscribers = b.subscribers ++ ((type, b.next_id) ∷ []);
  next_id = (b.next_id + 1) % 2 ^ 64;
}

-- unsubscribe under the bus lock.
unfoldable pub take_away : ℕ → EventBus → EventBus
unfolding is_subscribed erase
take_away id b =
    if is_subscribed id b.subscribers
    then record b { subscribers = erase id b.subscribers; erased = id ∷ b.erased }
    else b

-- unsubscribe, `removed->removed = true`
unfoldable pub mark : ℕ → EventBus → EventBus
unfolding has
mark id b = if has id b.erased then record b { removed = id ∷ b.removed } else b

-- Is the wait of unsubscribe over, its thread being this one? Inside the subscriber's own handler it
-- does not wait.
unfoldable pub wait_is_over : ℕ → ℕ → EventBus → Bool
unfolding has is_executing
wait_is_over thread id b = is_executing id (b.frames thread) || not (has id b.running)

-- Where a call of unsubscribe has come to.
pub data Stage : Type 0 where
  looking marking waiting returned : Stage

-- The next critical section of a call of unsubscribe. The call returns at once where the id is not in
-- the table, be it that another call has taken it out.
unfoldable pub unsubscribe : ℕ → ℕ → Stage → EventBus → Stage × EventBus
unfolding is_subscribed take_away mark wait_is_over
unsubscribe thread id looking b =
    (if is_subscribed id b.subscribers then marking else returned, take_away id b)
unsubscribe thread id marking b = (waiting, mark id b)
unsubscribe thread id waiting b = (if wait_is_over thread id b then returned else waiting, b)
unsubscribe thread id returned b = (returned, b)

-- publish_erased under the bus lock: the copy of the subscribers. A thread in a publish call publishes
-- only from within a handler.
unfoldable pub publish : ℕ → ℕ → List Frame → EventBus → EventBus
unfolding of_type update
publish thread type (between rest ∷ frames) b = b
publish thread type frames b = record b {
  frames = update thread (between (of_type type b.subscribers) ∷ frames) b.frames;
}

-- The next round of the loop: the call of the handler starts, unless its subscriber is removed. At the
-- end of the loop publish returns.
unfoldable pub next_round : ℕ → List Frame → EventBus → EventBus
unfolding has update
next_round thread (between [] ∷ frames) b = record b { frames = update thread frames b.frames }
next_round thread (between (id ∷ rest) ∷ frames) b =
    if has id b.removed
    then record b { frames = update thread (between rest ∷ frames) b.frames }
    else record b {
      frames = update thread (calling id rest ∷ frames) b.frames;
      running = id ∷ b.running;
      started = id ∷ b.started;
    }
next_round thread _ b = b

-- The destructor of Done: the call ends.
unfoldable pub call_ends : ℕ → List Frame → EventBus → EventBus
unfolding drop_one update
call_ends thread (calling id rest ∷ frames) b = record b {
  running = drop_one id b.running;
  frames = update thread (between rest ∷ frames) b.frames;
}
call_ends thread _ b = b

pub data Action : Type 0 where
  subscribe_action take_away_action mark_action next_action end_action : ℕ → Action
  publish_action : ℕ → ℕ → Action

unfoldable pub step : Action → EventBus → EventBus
unfolding subscribe take_away mark publish next_round call_ends
step (subscribe_action type) b = subscribe type b
step (take_away_action id) b = take_away id b
step (mark_action id) b = mark id b
step (publish_action thread type) b = publish thread type (b.frames thread) b
step (next_action thread) b = next_round thread (b.frames thread) b
step (end_action thread) b = call_ends thread (b.frames thread) b

unfoldable pub run : List Action → EventBus → EventBus
unfolding step
run [] b = b
run (a ∷ later) b = run later (step a b)

-- A call of unsubscribe, between any actions of the threads.
pub data Move : Type 0 where
  own : Move
  other : Action → Move

unfoldable pub move : ℕ → ℕ → Move → Stage × EventBus → Stage × EventBus
unfolding unsubscribe step
move thread id own (stage, b) = unsubscribe thread id stage b
move thread id (other a) (stage, b) = (stage, step a b)

unfoldable pub moves : ℕ → ℕ → List Move → Stage × EventBus → Stage × EventBus
unfolding move
moves thread id [] s = s
moves thread id (m ∷ later) s = moves thread id later (move thread id m s)
