-- ===== src/Core/Alarms/Laws.antt =====
-- The laws of the alarm manager of src/core/alarms.cpp, for calls in the order of its mutex.
use semiconductor_metrology.Base.{
  ℕ, String, Bool, true, false, ◌&&◌, not, List, [], ◌∷◌, ◌++◌, ◌∙◌, ◌==◌, Option, none, some,
  if◌then◌else◌, ◌≡◌, refl, arith,
}
use semiconductor_metrology.Core.Alarms.{
  AlarmId, code, Notice, alarm_set, alarm_cleared, Active, is_active, erase, set, clear,
  cleared_notices, clear_all,
}

-- No alarm stands twice in the active set.
abbrev pub Distinct : Active → Type 0
Distinct [] = Unit {0}
Distinct ((id, r) ∷ rest) = (is_active id rest ≡ false) × Distinct rest

is_active_code : (i j : AlarmId) (a : Active) → code i ≡ code j → is_active i a ≡ is_active j a
unfolding is_active
is_active_code i j [] e = refl
is_active_code i j ((k, r) ∷ rest) e = ground (arith, is_active_code i j rest e)

is_active-erase :
    (id j : AlarmId) (a : Active)
    → Distinct a
    → is_active j (erase id a) ≡ (is_active j a && not (code id == code j))
unfolding is_active erase
is_active-erase id j [] d = refl
is_active-erase id j ((k, r) ∷ rest) d =
    ground (arith, is_active-erase id j rest d.1, is_active_code k j rest)

pub data Op : Type 0 where
  sets : AlarmId → String → Op
  clears : AlarmId → Op
  clears_all : Op

unfoldable pub perform : Op → Active → Active × List Notice
unfolding set clear clear_all
perform (sets id reason) a = set id reason a
perform (clears id) a = clear id a
perform clears_all a = clear_all a

erase-Distinct : (id : AlarmId) (a : Active) → Distinct a → Distinct (erase id a)
unfolding erase
erase-Distinct id [] d = tt
erase-Distinct id ((k, r) ∷ rest) d =
    ground (arith, erase-Distinct id rest d.1, is_active-erase id k rest d.1)

-- Every operation keeps the active alarms distinct.
pub perform-Distinct : (op : Op) (a : Active) → Distinct a → Distinct (perform op a).0
unfolding perform
perform-Distinct (sets id reason) a d = ground arith
perform-Distinct (clears id) a d = ground (arith, erase-Distinct id a d)
perform-Distinct clears_all a d = tt

-- What is known of one alarm after some notices, in order: `none` as soon as an alarm is
-- announced as set twice, or as cleared while it is not set.
unfoldable pub track : ℕ → Bool → List Notice → Option Bool
track n b [] = some b
track n b (alarm_set k name reason ∷ rest) =
    let more = track n true rest in
    let other = track n b rest in if k == n then if b then none else more else other
track n b (alarm_cleared k name ∷ rest) =
    let more = track n false rest in
    let other = track n b rest in if k == n then if b then more else none else other

track-cleared_notices :
    (id : AlarmId) (a : Active)
    → Distinct a
    → track (code id) (is_active id a) (cleared_notices a) ≡ some false
unfolding track cleared_notices is_active
track-cleared_notices id [] d = refl
track-cleared_notices id ((k, r) ∷ rest) d =
    ground (arith, track-cleared_notices id rest d.1, is_active_code k id rest)

-- The notices of an operation are the changes that it makes under the mutex, each once: who knew
-- whether an alarm was active knows it again from them.
pub track-perform :
    (op : Op) (id : AlarmId) (a : Active)
    → Distinct a
    → track (code id) (is_active id a) (perform op a).1 ≡ some (is_active id (perform op a).0)
unfolding perform track is_active
track-perform (sets k reason) id a d = ground (arith, is_active_code k id a)
track-perform (clears k) id a d = ground (arith, is_active-erase k id a d, is_active_code k id a)
track-perform clears_all id a d = track-cleared_notices id a d

-- The changes of a history of calls, in the order in which they have the mutex.
unfoldable pub run : List Op → Active → Active × List Notice
run [] a = (a, [])
run (op ∷ ops) a =
    let (a', said) = perform op a in let (a'', more) = run ops a' in (a'', said ++ more)

track-append :
    (n : ℕ) (b b' : Bool) (xs ys : List Notice)
    → track n b xs ≡ some b'
    → track n b (xs ++ ys) ≡ track n b' ys
unfolding track
track-append n b b' [] ys e = ground arith
track-append n b b' (alarm_set k name reason ∷ xs) ys e =
    ground (arith, track-append n true b' xs ys, track-append n b b' xs ys)
track-append n b b' (alarm_cleared k name ∷ xs) ys e =
    ground (arith, track-append n false b' xs ys, track-append n b b' xs ys)

track-run_from :
    (ops : List Op) (id : AlarmId) (a : Active)
    → Distinct a
    → track (code id) (is_active id a) (run ops a).1 ≡ some (is_active id (run ops a).0)
unfolding run track
track-run_from [] id a d = refl
track-run_from (op ∷ ops) id a d =
    track-append (code id) _ _ (perform op a).1 (run ops (perform op a).0).1
      (track-perform op id a d)
    ∙ track-run_from ops id (perform op a).0 (perform-Distinct op a d)

-- From the empty set and over any history of calls, the changes of each alarm, in the order of the
-- mutex, alternate between set and cleared, beginning with set, and the last one tells whether it
-- is active.
pub track-run :
    (ops : List Op) (id : AlarmId)
    → track (code id) false (run ops []).1 ≡ some (is_active id (run ops []).0)
unfolding is_active
track-run ops id = track-run_from ops id [] tt
