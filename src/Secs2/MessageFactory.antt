-- ===== src/Secs2/MessageFactory.antt =====
-- The message registry (include/ssim/secsgem/secs2/message_factory.hpp,
-- src/secsgem/secs2/message_factory.cpp). The std::map stands as the list of its entries in the order
-- of their keys, stream first.
pub mod Judged
use semiconductor_metrology.Base.{
  ℕ, String, Bool, true, false, List, [], ◌∷◌, Option, none, some, if◌then◌else◌, ltb, ◌==◌, ◌&&◌,
  ◌||◌,
}
use semiconductor_metrology.Secs2.Item.{Item}
use semiconductor_metrology.Secs2.Message.{Message}

pub data Validation : Type 0 where
  valid unknown_stream unknown_function illegal_data : Validation

-- An empty std::function is none.
abbrev pub BodyCheck : Type 0
BodyCheck = Option (Option Item → Bool)

pub record Entry : Type 0 where
  pub stream : ℕ
  pub function : ℕ
  pub name : String
  pub check : BodyCheck

-- The order and the equality of the keys.
unfoldable pub key_before : ℕ → ℕ → Entry → Bool
key_before s f e = ltb s e.stream || (s == e.stream && ltb f e.function)

unfoldable pub has_key : ℕ → ℕ → Entry → Bool
has_key s f e = e.stream == s && e.function == f

-- entries_[{stream, function}] = entry
unfoldable pub register_message : Entry → List Entry → List Entry
unfolding key_before has_key
register_message e [] = e ∷ []
register_message e (x ∷ xs) =
    if key_before e.stream e.function x
    then e ∷ x ∷ xs
    else if has_key e.stream e.function x
    then e ∷ xs
    else x ∷ register_message e xs

unfoldable pub find : ℕ → ℕ → List Entry → Option Entry
find s f [] = none
find s f (x ∷ xs) = if has_key s f x then some x else find s f xs

-- entries_.lower_bound({stream, 0}): the first entry whose key is not before that one.
unfoldable pub lower_bound : ℕ → List Entry → Option Entry
lower_bound s [] = none
lower_bound s (x ∷ xs) = if ltb x.stream s then lower_bound s xs else some x

unfoldable pub passes : BodyCheck → Option Item → Bool
passes none body = true
passes (some test) body = test body

unfoldable pub stream_known : ℕ → Option Entry → Bool
stream_known s none = false
stream_known s (some x) = x.stream == s

unfoldable pub check : Message → List Entry → Validation
check m entries = elim (find m.stream m.function entries) [
  | some e ↦ if passes e.check m.body then valid else illegal_data
  | none ↦
      if stream_known m.stream (lower_bound m.stream entries)
      then unknown_function
      else unknown_stream
]

unfoldable pub name_of : ℕ → ℕ → List Entry → String
name_of s f entries = elim (find s f entries) [ none ↦ "" | some e ↦ e.name ]
