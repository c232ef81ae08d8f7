-- ===== src/Secs2/MessageFactory/Judged.antt =====
-- What check of src/secsgem/secs2/message_factory.cpp says, from the registrations.
use semiconductor_metrology.Base.{
  ℕ, ◌≤◌, ◌≡◌, refl, ap, ap₂, ◌∙◌, Bool, true, false, List, [], ◌∷◌, Option, none, some,
  if◌then◌else◌, ltb, ◌==◌, ◌||◌, arith,
}
use semiconductor_metrology.Secs2.Message.{Message}
use semiconductor_metrology.Secs2.MessageFactory.{
  Validation, valid, unknown_stream, unknown_function, illegal_data, Entry, key_before, has_key,
  register_message, find, lower_bound, passes, stream_known, check,
}

-- The registry after the registrations, the last one first.
unfoldable pub registered : List Entry → List Entry
registered [] = []
registered (e ∷ earlier) = register_message e (registered earlier)

-- Is any message of the stream registered?
unfoldable pub any_of_stream : ℕ → List Entry → Bool
any_of_stream s [] = false
any_of_stream s (e ∷ rest) = e.stream == s || any_of_stream s rest

-- The verdict from the registrations themselves: the last one for the message counts.
unfoldable pub verdict : Message → List Entry → Validation
verdict m registrations = elim (find m.stream m.function registrations) [
  | some e ↦ if passes e.check m.body then valid else illegal_data
  | none ↦ if any_of_stream m.stream registrations then unknown_function else unknown_stream
]

AllFrom : ℕ → List Entry → Type 0
AllFrom s [] = Unit
AllFrom s (e ∷ rest) = (s ≤ e.stream) × AllFrom s rest

IsAscending : List Entry → Type 0
IsAscending [] = Unit
IsAscending (e ∷ rest) = AllFrom e.stream rest × IsAscending rest

AllFrom-register_message :
    (s : ℕ) (e : Entry) (xs : List Entry)
    → s ≤ e.stream
    → AllFrom s xs
    → AllFrom s (register_message e xs)
unfolding AllFrom register_message
AllFrom-register_message s e [] h a = ground arith
AllFrom-register_message s e (x ∷ xs) h a = ground (arith, AllFrom-register_message s e xs h)

AllFrom-le : (s t : ℕ) (xs : List Entry) → s ≤ t → AllFrom t xs → AllFrom s xs
unfolding AllFrom
AllFrom-le s t [] h a = tt
AllFrom-le s t (x ∷ xs) h a = (omega (arith, a.0), AllFrom-le s t xs h a.1)

register_message-IsAscending :
    (e : Entry) (xs : List Entry) → IsAscending xs → IsAscending (register_message e xs)
unfolding IsAscending AllFrom register_message key_before has_key
register_message-IsAscending e [] a = ground arith
register_message-IsAscending e (x ∷ xs) a = ground (
  arith,
  register_message-IsAscending e xs,
  AllFrom-le e.stream x.stream xs,
  AllFrom-register_message x.stream e xs,
)

registered-IsAscending : (rs : List Entry) → IsAscending (registered rs)
unfolding registered IsAscending
registered-IsAscending [] = tt
registered-IsAscending (e ∷ rs) =
    register_message-IsAscending e (registered rs) (registered-IsAscending rs)

find-register_message :
    (s f : ℕ) (e : Entry) (xs : List Entry)
    → find s f (register_message e xs) ≡ (if has_key s f e then some e else find s f xs)
unfolding find register_message key_before has_key
find-register_message s f e [] = refl
find-register_message s f e (x ∷ xs) = ground (arith, find-register_message s f e xs)

find-registered : (s f : ℕ) (rs : List Entry) → find s f (registered rs) ≡ find s f rs
unfolding registered find
find-registered s f [] = refl
find-registered s f (e ∷ rs) =
    find-register_message s f e (registered rs)
    ∙ ap (λ o. if has_key s f e then some e else o) (find-registered s f rs)

any_of_stream-register_message :
    (s : ℕ) (e : Entry) (xs : List Entry)
    → any_of_stream s (register_message e xs) ≡ (e.stream == s || any_of_stream s xs)
unfolding any_of_stream register_message key_before has_key
any_of_stream-register_message s e [] = refl
any_of_stream-register_message s e (x ∷ xs) = ground (arith, any_of_stream-register_message s e xs)

any_of_stream-registered :
    (s : ℕ) (rs : List Entry) → any_of_stream s (registered rs) ≡ any_of_stream s rs
unfolding registered any_of_stream
any_of_stream-registered s [] = refl
any_of_stream-registered s (e ∷ rs) =
    any_of_stream-register_message s e (registered rs)
    ∙ ap (◌||◌ (e.stream == s)) (any_of_stream-registered s rs)

-- Past an entry of a later stream there is none of this one.
any_of_stream-later :
    (s t : ℕ) (xs : List Entry) → ltb s t ≡ true → AllFrom t xs → any_of_stream s xs ≡ false
unfolding any_of_stream AllFrom
any_of_stream-later s t [] h a = refl
any_of_stream-later s t (x ∷ xs) h a = ground (arith, any_of_stream-later s t xs h)

stream_known-lower_bound :
    (s : ℕ) (xs : List Entry)
    → IsAscending xs
    → stream_known s (lower_bound s xs) ≡ any_of_stream s xs
unfolding stream_known lower_bound any_of_stream IsAscending
stream_known-lower_bound s [] a = refl
stream_known-lower_bound s (x ∷ xs) a =
    ground (arith, stream_known-lower_bound s xs, any_of_stream-later s x.stream xs)

-- After any registrations, check finds a message valid or its data illegal by the check that was
-- registered for it last; without one, its function unknown where any function of its stream is
-- registered, and its stream unknown otherwise.
pub check-registered :
    (registrations : List Entry) (m : Message)
    → check m (registered registrations) ≡ verdict m registrations
unfolding check verdict
check-registered rs m = ap₂ judge found known
  where
    judge : Option Entry → Bool → Validation
    judge o b = elim o [
      | some e ↦ if passes e.check m.body then valid else illegal_data
      | none ↦ if b then unknown_function else unknown_stream
    ]

    found : find m.stream m.function (registered rs) ≡ find m.stream m.function rs
    found = find-registered m.stream m.function rs

    known : stream_known m.stream (lower_bound m.stream (registered rs)) ≡ any_of_stream m.stream rs
    known =
        stream_known-lower_bound m.stream (registered rs) (registered-IsAscending rs)
        ∙ any_of_stream-registered m.stream rs
