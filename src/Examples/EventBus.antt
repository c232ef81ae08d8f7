-- ===== src/Examples/EventBus.antt =====
-- The theorems about src/core/event_bus.cpp at concrete inputs.
use semiconductor_metrology.Base.{List, [], ◌∷◌, ◌≡◌, refl, true, false}
use semiconductor_metrology.Core.EventBus.{
  EventBus, new, has, of_type, is_executing, looking, returned, unsubscribe, wait_is_over, Move,
  own, other, move, moves, subscribe_action, publish_action, next_action, end_action, subscribe,
  take_away, mark, publish, next_round, call_ends, update, drop_one, is_subscribed, erase, step,
  run,
}
use semiconductor_metrology.Core.EventBus.Silent.{times, unsubscribe-IsSilent}
use semiconductor_metrology.Core.EventBus.Delivery.{live, rounds, Delivered, publish-Delivered}

-- Two subscribers to events of type 5 and one to type 6.
subscribed : EventBus
unfolding run
subscribed = run (subscribe_action 5 ∷ subscribe_action 6 ∷ subscribe_action 5 ∷ []) new

subscribed_first : subscribed.frames 0 ≡ []
unfolding subscribed run step subscribe
subscribed_first = refl

subscribed-live : live (of_type 5 subscribed.subscribers) subscribed.removed ≡ true
unfolding subscribed run step subscribe of_type live has
subscribed-live = refl

publish-Delivered_example :
    Delivered 0
      (of_type 5 subscribed.subscribers)
      []
      subscribed
      (run (publish_action 0 5 ∷ rounds 0 (of_type 5 subscribed.subscribers)) subscribed)
publish-Delivered_example = publish-Delivered 0 5 subscribed subscribed_first subscribed-live

-- Thread 0 calls the second subscriber when thread 1 begins to unsubscribe it; the call ends before
-- thread 1 comes to its wait.
abbrev leaving : List Move
leaving =
    other (publish_action 0 5)
    ∷ other (next_action 0)
    ∷ other (end_action 0)
    ∷ own
    ∷ other (next_action 0)
    ∷ other (end_action 0)
    ∷ own
    ∷ []

abbrev unsubscribed : EventBus
unsubscribed = (moves 1 3 leaving (looking, subscribed)).1

unsubscribe-IsSilent_example :
    (has 3 (run (publish_action 2 5 ∷ next_action 2 ∷ next_action 2 ∷ []) unsubscribed).running
      ≡ false)
    × (times 3 (run (publish_action 2 5 ∷ next_action 2 ∷ next_action 2 ∷ []) unsubscribed).started
        ≡ times 3 unsubscribed.started)
unfolding moves move unsubscribe wait_is_over subscribed run step subscribe take_away mark publish
    next_round call_ends update drop_one is_subscribed erase of_type has is_executing
unsubscribe-IsSilent_example =
    unsubscribe-IsSilent 1 3 leaving subscribed unsubscribed
      (publish_action 2 5 ∷ next_action 2 ∷ next_action 2 ∷ []) refl refl refl

-- A second call of unsubscribe, in thread 2, returns while the handler runs in thread 0, since
-- thread 1 has taken the subscriber out of the table.
returns_early :
    (unsubscribe 2 3 looking
      (moves 1 3
        (other (publish_action 0 5)
          ∷ other (next_action 0)
          ∷ other (end_action 0)
          ∷ other (next_action 0)
          ∷ own
          ∷ [])
        (looking, subscribed)).1).0
    ≡ returned
unfolding moves move unsubscribe wait_is_over subscribed run step subscribe take_away mark publish
    next_round call_ends update drop_one is_subscribed erase of_type has is_executing
returns_early = refl
