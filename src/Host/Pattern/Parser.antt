-- ===== src/Host/Pattern/Parser.antt =====
-- The parser of src/host_sim/pattern.cpp. Its position is the text that is left; the position and the
-- words that an error's message quotes are left out. Of the recursion and of the loop over a list's
-- children each has its own fuel, and where that runs out, the result is none.
use semiconductor_metrology.Base.{
  ℕ, zero, suc, ◌+◌, String, Bool, true, false, ◌||◌, ◌&&◌, ◌==◌, List, [], ◌∷◌, ◌++◌, Option, none,
  some, Result, ok, err, fail, ◌>>=◌, if◌then◌else◌, Text, codes, text_eq, length,
}
use semiconductor_metrology.Secs2.Item.{
  Format, Item, array, binary, boolean, ascii, jis8, i1, i2, i4, i8, u1, u2, u4, u8, f4, f8,
  is_list_format,
}
use semiconductor_metrology.Host.Pattern.{
  Pattern, Patterns, any_item, any_list, any_of_format, exact, none_left, one_more, to_item,
}
use semiconductor_metrology.Host.Pattern.Words.{
  Floats, is_space, is_alnum, parse_value, collect, read_words,
}

abbrev pub err_pattern_syntax : ℕ
err_pattern_syntax = 600

abbrev pub syntax {ℓ} : {A : Type ℓ} → String → Result A
syntax what = fail err_pattern_syntax what

unfoldable pub skip_space : Text → Text
unfolding is_space
skip_space [] = []
skip_space (c ∷ cs) = let rest = skip_space cs in if is_space c then rest else c ∷ cs

-- The letters and digits that come first, and the rest.
unfoldable pub take_name : Text → Text × Text
unfolding is_alnum
take_name [] = ([], [])
take_name (c ∷ cs) =
    let (name, rest) = take_name cs in if is_alnum c then (c ∷ name, rest) else ([], c ∷ cs)

unfoldable pub format_from_name : Text → Option Format
format_from_name n =
    if text_eq n (codes "L")
    then some Format.list
    else if text_eq n (codes "B")
    then some binary
    else if text_eq n (codes "BOOLEAN") || text_eq n (codes "BOOL")
    then some boolean
    else if text_eq n (codes "A")
    then some ascii
    else if text_eq n (codes "I1")
    then some i1
    else if text_eq n (codes "I2")
    then some i2
    else if text_eq n (codes "I4")
    then some i4
    else if text_eq n (codes "I8")
    then some i8
    else if text_eq n (codes "U1")
    then some u1
    else if text_eq n (codes "U2")
    then some u2
    else if text_eq n (codes "U4")
    then some u4
    else if text_eq n (codes "U8")
    then some u8
    else if text_eq n (codes "F4")
    then some f4
    else if text_eq n (codes "F8")
    then some f8
    else none

-- The loop of parse_string, after the opening quote: `value` is what came so far, `escaped` that the
-- last character was the backslash of an escape.
unfoldable pub string_from : Text → Bool → Text → Result (Text × Text)
string_from value false [] = syntax "a string is not closed"
string_from value true [] = syntax "a string ends in a backslash"
string_from value false (c ∷ cs) =
    let escape = c == b'\\' in
    let rest = string_from (if escape then value else value ++ (c ∷ [])) escape cs in
    if c == b'"' then ok (value, cs) else rest
string_from value true (c ∷ cs) =
    let rest = string_from (value ++ (c ∷ [])) false cs in
    if c == b'"' || c == b'\\' then rest else syntax "only quotes and backslashes are escaped"

-- What begins at a place: a pattern that has ended there, or a list whose children follow.
pub data Head : Type 0 where
  done : Pattern → Text → Head
  open_list : Text → Head

unfoldable pub parse_string : Text → Result Head
unfolding string_from
parse_string rest =
    string_from [] false rest >>= λ (value, rest). ok (done (exact (array ascii value)) rest)

unfoldable pub array_of : Floats → Format → List Text → Result Pattern
unfolding collect parse_value
array_of n Format.list words = syntax "unsupported item type"
array_of n jis8 words = syntax "unsupported item type"
array_of n ascii [] = ok (exact (array ascii []))
array_of n ascii (w ∷ ws) = syntax "a string is written as A and the quoted text"
array_of n f words = elim (collect (parse_value n f) words) [
  | none ↦ syntax "not a valid value for this type"
  | some vs ↦ ok (exact (array f vs))
]

unfoldable pub parse_array : Floats → Format → Text → Result Head
unfolding read_words array_of
parse_array n f rest = elim (read_words rest [] []) [
  | none ↦ syntax "an array is not closed"
  | some (words, rest) ↦ array_of n f words >>= λ p. ok (done p rest)
]

unfoldable pub closing : Format → Text → Result Head
closing f [] = syntax "']' is expected after '*'"
closing f (c ∷ rest) =
    if c == b']'
    then ok (done (if is_list_format f then any_list else any_of_format f) rest)
    else syntax "']' is expected after '*'"

-- What stands after '['.
unfoldable pub after_bracket : Floats → Bool → Format → Text → Result Head
unfolding closing parse_array skip_space
after_bracket n wild f [] = if is_list_format f then ok (open_list []) else parse_array n f []
after_bracket n wild f (c ∷ rest) =
    if c == b'*'
    then if wild
      then closing f (skip_space rest)
      else syntax "wildcards are only allowed in patterns"
    else if is_list_format f
    then ok (open_list (c ∷ rest))
    else parse_array n f (c ∷ rest)

abbrev pub is_ascii_format : Format → Bool
is_ascii_format ascii = true
is_ascii_format _ = false

unfoldable pub after_name : Floats → Bool → Format → Text → Result Head
unfolding after_bracket parse_string skip_space
after_name n wild f [] = syntax "'[' is expected"
after_name n wild f (c ∷ rest) =
    if is_ascii_format f && c == b'"'
    then parse_string rest
    else if c == b'['
    then after_bracket n wild f (skip_space rest)
    else syntax "'[' is expected"

unfoldable pub named : Floats → Bool → Text × Text → Result Head
unfolding after_name format_from_name
named n wild ([], rest) = syntax "an item type is expected"
named n wild (c ∷ name, rest) = elim (format_from_name (c ∷ name)) [
  | none ↦ syntax "unknown item type"
  | some f ↦ after_name n wild f rest
]

unfoldable pub parse_head : Floats → Bool → Text → Result Head
unfolding named take_name
parse_head n wild [] = syntax "an item is missing"
parse_head n wild (c ∷ rest) =
    if c == b'*'
    then if wild then ok (done any_item rest) else syntax "wildcards are only allowed in patterns"
    else named n wild (take_name (c ∷ rest))

abbrev pub Outcome {ℓ} : Type ℓ → Type ℓ
Outcome A = Option (Result (A × Text))

abbrev pub and_then {ℓ κ} :
    {A : Type ℓ} {B : Type κ} → Outcome A → (A → Text → Outcome B) → Outcome B
and_then none k = none
and_then (some (err e)) k = some (err e)
and_then (some (ok (a, rest))) k = k a rest

-- The loop of parse_list, over the parser of a child.
unfoldable pub parse_children : (Text → Outcome Pattern) → ℕ → Text → Outcome Patterns
unfolding skip_space
parse_children node zero t = none
parse_children node (suc fuel) t = elim (skip_space t) [
  | [] ↦ some (syntax "a list is not closed")
  | c ∷ rest ↦ elim (c == b']') [
    | true ↦ some (ok (none_left, rest))
    | false ↦ and_then (node (c ∷ rest)) (λ p rest.
        and_then (parse_children node fuel rest) (λ ps rest. some (ok (one_more p ps, rest))))
  ]
]

unfoldable pub parse_node : Floats → Bool → ℕ → Text → Outcome Pattern
unfolding parse_head parse_children skip_space
parse_node n wild zero t = none
parse_node n wild (suc fuel) t = elim (parse_head n wild (skip_space t)) [
  | err e ↦ some (err e)
  | ok (done p rest) ↦ some (ok (p, rest))
  | ok (open_list rest) ↦
      and_then (parse_children (parse_node n wild fuel) (length rest + 1) rest)
        (λ ps rest. some (ok (Pattern.list ps, rest)))
]

-- Nothing but white space may follow.
unfoldable pub ended : Pattern → Text → Result Pattern
ended p [] = ok p
ended p (c ∷ rest) = syntax "unexpected text after the item"

unfoldable pub parse_all : Floats → Bool → Text → Option (Result Pattern)
unfolding parse_node skip_space ended
parse_all n wild t = elim (parse_node n wild (length t + 1) t) [
  | none ↦ none
  | some (err e) ↦ some (err e)
  | some (ok (p, rest)) ↦ some (ended p (skip_space rest))
]

unfoldable pub parse_pattern : Floats → Text → Option (Result Pattern)
unfolding parse_all
parse_pattern n t = parse_all n true t

unfoldable pub parse_item : Floats → Text → Option (Result Item)
unfolding parse_all to_item
parse_item n t = elim (parse_all n false t) [
  | none ↦ none
  | some (err e) ↦ some (err e)
  | some (ok p) ↦ some (ok (to_item p))
]
