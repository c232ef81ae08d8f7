-- ===== src/Host/Pattern/Words.antt =====
-- The words of an array in src/host_sim/pattern.cpp, and their values. std::strtoll and std::strtoull are
-- those of base 0: what is not a number up to the end, or out of range, has no value. std::strtod
-- and the conversion of a double to a float are parameters, on bit patterns.
use semiconductor_metrology.Base.{
  ℕ, ◌+◌, ◌-◌, ◌*◌, ◌^◌, Bool, true, false, ◌&&◌, ◌||◌, ◌==◌, ltb, leb, List, [], ◌∷◌, ◌++◌, Option,
  none, some, if◌then◌else◌, Text, codes, text_eq,
}
use semiconductor_metrology.Secs2.Item.{
  Format, binary, boolean, i1, i2, i4, i8, u1, u2, u4, u8, f4, f8,
}

pub record Floats : Type 0 where
  pub strtod : Text → Option ℕ
  pub to_float : ℕ → ℕ

abbrev pub is_between : ℕ → ℕ → ℕ → Bool
is_between lo hi c = leb lo c && leb c hi

-- std::isspace and std::isalnum of the C locale.
unfoldable pub is_space : ℕ → Bool
is_space c = is_between 9 13 c || c == 32

unfoldable pub is_alnum : ℕ → Bool
is_alnum c = is_between b'0' b'9' c || is_between b'A' b'Z' c || is_between b'a' b'z' c

unfoldable pub digit_value : ℕ → Option ℕ
digit_value c =
    if is_between b'0' b'9' c
    then some (c - 48)
    else if is_between b'A' b'Z' c
    then some (c - 55)
    else if is_between b'a' b'z' c
    then some (c - 87)
    else none

unfoldable pub digits : ℕ → ℕ → Text → Option ℕ
unfolding digit_value
digits base value [] = some value
digits base value (c ∷ cs) = elim (digit_value c) [
  | none ↦ none
  | some d ↦ elim (ltb d base) [ true ↦ digits base (value * base + d) cs | false ↦ none ]
]

unfoldable pub after_zero : Text → Option ℕ
unfolding digits
after_zero [] = some 0
after_zero (x ∷ []) = digits 8 0 (x ∷ [])
after_zero (x ∷ c ∷ cs) =
    if x == b'x' || x == b'X' then digits 16 0 (c ∷ cs) else digits 8 0 (x ∷ c ∷ cs)

unfoldable pub magnitude : Text → Option ℕ
unfolding after_zero digits
magnitude [] = none
magnitude (c ∷ cs) = if c == b'0' then after_zero cs else digits 10 0 (c ∷ cs)

-- w.c_str() ends at the first NUL.
unfoldable pub c_str : Text → Text
c_str [] = []
c_str (c ∷ cs) = let rest = c_str cs in if c == 0 then [] else c ∷ rest

abbrev pub up_to : ℕ → Option ℕ → Option ℕ
up_to limit none = none
up_to limit (some v) = if leb v limit then some v else none

-- The bit pattern of minus v, with `2 * half` values.
abbrev pub negated : ℕ → Option ℕ → Option ℕ
negated half none = none
negated half (some v) = if v == 0 then some 0 else if leb v half then some (2 * half - v) else none

unfoldable pub signed_text : ℕ → Text → Option ℕ
unfolding magnitude
signed_text half [] = none
signed_text half (c ∷ cs) =
    if c == b'-'
    then negated half (magnitude cs)
    else if c == b'+'
    then up_to (half - 1) (magnitude cs)
    else up_to (half - 1) (magnitude (c ∷ cs))

unfoldable pub unsigned_text : ℕ → Text → Option ℕ
unfolding magnitude
unsigned_text limit [] = none
unsigned_text limit (c ∷ cs) =
    if c == b'-'
    then none
    else if c == b'+'
    then up_to limit (magnitude cs)
    else up_to limit (magnitude (c ∷ cs))

-- parse_signed<T> and parse_unsigned<T>, for w bits.
unfoldable pub parse_signed : ℕ → Text → Option ℕ
unfolding signed_text c_str
parse_signed w word = signed_text (2 ^ (w - 1)) (c_str word)

unfoldable pub parse_unsigned : ℕ → Text → Option ℕ
unfolding unsigned_text c_str
parse_unsigned w word = unsigned_text (2 ^ w - 1) (c_str word)

unfoldable pub parse_boolean : Text → Option ℕ
parse_boolean w =
    if text_eq w (codes "true") || text_eq w (codes "1")
    then some 1
    else if text_eq w (codes "false") || text_eq w (codes "0")
    then some 0
    else none

unfoldable pub collect : (Text → Option ℕ) → List Text → Option (List ℕ)
collect parse [] = some []
collect parse (w ∷ ws) = elim (parse w) [
  | none ↦ none
  | some v ↦ elim (collect parse ws) [ none ↦ none | some vs ↦ some (v ∷ vs) ]
]

abbrev pub through : (ℕ → ℕ) → Option ℕ → Option ℕ
through f none = none
through f (some v) = some (f v)

-- The switch of parse_array, but for the formats that it refuses and A.
unfoldable pub parse_value : Floats → Format → Text → Option ℕ
unfolding parse_signed parse_unsigned parse_boolean c_str
parse_value n binary w = parse_unsigned 8 w
parse_value n boolean w = parse_boolean w
parse_value n i1 w = parse_signed 8 w
parse_value n i2 w = parse_signed 16 w
parse_value n i4 w = parse_signed 32 w
parse_value n i8 w = parse_signed 64 w
parse_value n u1 w = parse_unsigned 8 w
parse_value n u2 w = parse_unsigned 16 w
parse_value n u4 w = parse_unsigned 32 w
parse_value n u8 w = parse_unsigned 64 w
parse_value n f4 w = through n.to_float (n.strtod (c_str w))
parse_value n f8 w = n.strtod (c_str w)
parse_value n _ w = none

-- A word that has ended, unless nothing stands since the last one.
abbrev pub end_word : Text → List Text → List Text
end_word [] ws = ws
end_word (c ∷ cs) ws = ws ++ ((c ∷ cs) ∷ [])

-- read_words: the words up to ']', and what follows it. The second text is the word so far.
unfoldable pub read_words : Text → Text → List Text → Option (List Text × Text)
unfolding is_space
read_words [] word words = none
read_words (c ∷ cs) word words =
    let apart = c == b',' || is_space c in
    let rest =
      read_words cs (if apart then [] else word ++ (c ∷ []))
        (if apart then end_word word words else words) in
    if c == b']' then some (end_word word words, cs) else rest
