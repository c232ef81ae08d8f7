-- ===== src/Examples/Host.antt =====
-- The theorem about src/host_sim/pattern.cpp at a concrete input, and tests.
use semiconductor_metrology.Base.{
  ◌==◌, false, [], ◌∷◌, none, some, if◌then◌else◌, ok, ◌≡◌, refl, Text, codes, text_eq,
}
use semiconductor_metrology.Secs2.Item.{Item, array, nil, cons, ascii, u4, is_list_format}
use semiconductor_metrology.Host.Pattern.{FloatEquality}
use semiconductor_metrology.Host.Pattern.Words.{Floats}
use semiconductor_metrology.Host.Pattern.Parser.{parse_all, parse_item, parse_pattern}
use semiconductor_metrology.Host.Pattern.Total.{IsReturned, Matches, parse-Matches}

-- A strtod that knows two numbers.
abbrev floats : Floats
floats = record {
  strtod = λ w.
      if text_eq w (codes "0")
      then some 0
      else if text_eq w (codes "1")
      then some 0x3ff0_0000_0000_0000
      else none;
  to_float = λ d. if d == 0 then 0 else 0x3f80_0000;
}

abbrev float_equality : FloatEquality
float_equality = record { float_eq = λ a b. a == b; double_eq = λ a b. a == b }

abbrev start_text : Text
start_text = codes "L[ A\"START\" U4[2005, 0x10] ]"

parse-Matches_example :
    IsReturned (parse_pattern floats start_text)
    × Matches float_equality (parse_all floats false start_text) (parse_item floats start_text)
parse-Matches_example = parse-Matches floats float_equality start_text

parsed_start :
    parse_item floats start_text
    ≡ some
        (ok (Item.list (cons (array ascii (codes "START")) (cons (array u4 (2005 ∷ 16 ∷ [])) nil))))
unfolding parse_item text_eq is_list_format
parsed_start = refl
