-- ===== src/Core/Alarms/Announced.antt =====
-- The alarm manager of src/core/alarms.cpp in several threads. A call changes the active set under the
-- mutex and publishes afterwards, with the mutex released, so that the notices of two calls may
-- come in either order: any notice that waits may be the next to be published.
use semiconductor_metrology.Base.{
  ℕ, zero, suc, ◌+◌, false, List, [], ◌∷◌, ◌++◌, ◌==◌, some, if◌then◌else◌, ◌≡◌, refl, ap, sym, ◌∙◌,
  arith, append-nil, append_assoc,
}
use semiconductor_metrology.Core.Alarms.{
  AlarmId, code, Notice, alarm_set, alarm_cleared, Active, is_active,
}
use semiconductor_metrology.Core.Alarms.Laws.{Op, perform, track, track-run}
use semiconductor_metrology.Core.Alarms.Laws

pub record Manager : Type 0 where
  pub active : Active
  -- the notices that calls have still to publish
  pub waiting : List Notice
  -- those that they have published, newest first
  pub published : List Notice

abbrev pub start : Manager
start = record { active = []; waiting = []; published = [] }

pub data Action : Type 0 where
  -- the part of a call that runs under the mutex
  calls : Op → Action
  -- the notice at this place among those that wait
  publishes : ℕ → Action

-- The notices that wait, and those published, after the one at this place is published.
unfoldable pub publish_at : ℕ → List Notice → List Notice → List Notice × List Notice
publish_at i [] published = ([], published)
publish_at zero (x ∷ rest) published = (rest, x ∷ published)
publish_at (suc i) (x ∷ rest) published =
    let (waiting, published') = publish_at i rest published in (x ∷ waiting, published')

unfoldable pub step : Action → Manager → Manager
unfolding perform publish_at
step (calls op) m =
    let (active', said) = perform op m.active in
    record m { active = active'; waiting = m.waiting ++ said }
step (publishes i) m =
    let (waiting', published') = publish_at i m.waiting m.published in
    record m { waiting = waiting'; published = published' }

unfoldable pub run : List Action → Manager → Manager
unfolding step
run [] m = m
run (a ∷ later) m = run later (step a m)

-- The calls in the order in which they had the mutex.
unfoldable pub calls_of : List Action → List Op
calls_of [] = []
calls_of (calls op ∷ later) = op ∷ calls_of later
calls_of (publishes i ∷ later) = calls_of later

-- How often an alarm is announced as set, and as cleared.
unfoldable pub sets_of : ℕ → List Notice → ℕ
sets_of n [] = 0
sets_of n (alarm_set k name reason ∷ rest) =
    let more = sets_of n rest in if k == n then more + 1 else more
sets_of n (alarm_cleared k name ∷ rest) = sets_of n rest

unfoldable pub clears_of : ℕ → List Notice → ℕ
clears_of n [] = 0
clears_of n (alarm_set k name reason ∷ rest) = clears_of n rest
clears_of n (alarm_cleared k name ∷ rest) =
    let more = clears_of n rest in if k == n then more + 1 else more

sets_of-append : (n : ℕ) (xs ys : List Notice) → sets_of n (xs ++ ys) ≡ sets_of n xs + sets_of n ys
unfolding sets_of
sets_of-append n [] ys = omega arith
sets_of-append n (alarm_set k name reason ∷ xs) ys = ground (arith, sets_of-append n xs ys)
sets_of-append n (alarm_cleared k name ∷ xs) ys = sets_of-append n xs ys

clears_of-append :
    (n : ℕ) (xs ys : List Notice) → clears_of n (xs ++ ys) ≡ clears_of n xs + clears_of n ys
unfolding clears_of
clears_of-append n [] ys = omega arith
clears_of-append n (alarm_set k name reason ∷ xs) ys = clears_of-append n xs ys
clears_of-append n (alarm_cleared k name ∷ xs) ys = ground (arith, clears_of-append n xs ys)

-- Publishing neither loses a notice nor makes one up.
IsKept : ℕ → List Notice × List Notice → List Notice × List Notice → Type 0
IsKept n (ws, ps) (ws', ps') =
    (sets_of n ws' + sets_of n ps' ≡ sets_of n ws + sets_of n ps)
    × (clears_of n ws' + clears_of n ps' ≡ clears_of n ws + clears_of n ps)

first-IsKept : (n : ℕ) (x : Notice) (rest ps : List Notice) → IsKept n (x ∷ rest, ps) (rest, x ∷ ps)
unfolding IsKept sets_of clears_of
first-IsKept n (alarm_set k name reason) rest ps = ground arith
first-IsKept n (alarm_cleared k name) rest ps = ground arith

later-IsKept :
    (n : ℕ) (x : Notice) (ws ps ws' ps' : List Notice)
    → IsKept n (ws, ps) (ws', ps')
    → IsKept n (x ∷ ws, ps) (x ∷ ws', ps')
unfolding IsKept sets_of clears_of
later-IsKept n (alarm_set k name reason) ws ps ws' ps' h = ground arith
later-IsKept n (alarm_cleared k name) ws ps ws' ps' h = ground arith

publish_at-IsKept : (n i : ℕ) (ws ps : List Notice) → IsKept n (ws, ps) (publish_at i ws ps)
unfolding publish_at IsKept
publish_at-IsKept n i [] ps = (refl, refl)
publish_at-IsKept n zero (x ∷ ws) ps = first-IsKept n x ws ps
publish_at-IsKept n (suc i) (x ∷ ws) ps =
    later-IsKept n x ws ps (publish_at i ws ps).0 (publish_at i ws ps).1
      (publish_at-IsKept n i ws ps)

-- From any state: the active set is that of the calls in the order of the mutex, and what they
-- announce is what was published or waits.
run_from :
    (actions : List Action) (n : ℕ) (m : Manager)
    → ((run actions m).active ≡ (Laws.run (calls_of actions) m.active).0)
      × IsKept n
          (m.waiting ++ (Laws.run (calls_of actions) m.active).1, m.published)
          ((run actions m).waiting, (run actions m).published)
unfolding run calls_of step IsKept Laws.run
run_from [] n m = (refl, (rw (append-nil m.waiting) refl, rw (append-nil m.waiting) refl))
run_from (calls op ∷ later) n m =
    let log = (Laws.run (calls_of later) (perform op m.active).0).1 in
    let joined = append_assoc m.waiting (perform op m.active).1 log in
    let more = run_from later n (step (calls op) m) in
    (
      more.0,
      (
        more.1.0 ∙ ap (λ ws. sets_of n ws + sets_of n m.published) joined,
        more.1.1 ∙ ap (λ ws. clears_of n ws + clears_of n m.published) joined,
      ),
    )
run_from (publishes i ∷ later) n m =
    let log = (Laws.run (calls_of later) m.active).1 in
    let more = run_from later n (step (publishes i) m) in
    let kept = publish_at-IsKept n i m.waiting m.published in
    let left = (publish_at i m.waiting m.published).0 in
    (
      more.0,
      (
        omega (arith, more.1.0, kept.0, sets_of-append n m.waiting log, sets_of-append n left log),
        omega (
          arith,
          more.1.1,
          kept.1,
          clears_of-append n m.waiting log,
          clears_of-append n left log,
        ),
      ),
    )

-- Each change is announced exactly once, whichever threads make the calls. After any actions, the
-- changes that the calls made, in the order of the mutex, alternate for each alarm between set and
-- cleared, beginning with set, and end with whether it is active; and as many of them of each
-- kind as were made are published or wait for their call to publish them.
pub announced_once :
    (actions : List Action) (id : AlarmId)
    → (track (code id) false (Laws.run (calls_of actions) []).1
        ≡ some (is_active id (run actions start).active))
      × (sets_of (code id) (run actions start).waiting
            + sets_of (code id) (run actions start).published
          ≡ sets_of (code id) (Laws.run (calls_of actions) []).1)
      × (clears_of (code id) (run actions start).waiting
            + clears_of (code id) (run actions start).published
          ≡ clears_of (code id) (Laws.run (calls_of actions) []).1)
unfolding IsKept sets_of clears_of
announced_once actions id =
    let kept = run_from actions (code id) start in
    (
      track-run (calls_of actions) id ∙ ap (λ a. some (is_active id a)) (sym kept.0),
      kept.1.0 ∙ omega arith,
      kept.1.1 ∙ omega arith,
    )
