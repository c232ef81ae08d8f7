-- ===== src/Host/Pattern/Heads.antt =====
-- How src/host_sim/pattern.cpp reads what begins at a place.
use semiconductor_metrology.Base.{
  ℕ, suc, ◌+◌, ◌≤◌, ◌<◌, Bool, true, false, ◌&&◌, ◌==◌, List, [], ◌∷◌, Option, none, some, Result,
  ok, err, ◌>>=◌, if◌then◌else◌, Text, length, ◌≡◌, arith,
}
use semiconductor_metrology.Secs2.Item.{Format, array, ascii, is_list_format}
use semiconductor_metrology.Host.Pattern.{Pattern, any_item, exact, IsPlain}
use semiconductor_metrology.Host.Pattern.Words.{Floats, read_words}
use semiconductor_metrology.Host.Pattern.Parser.{
  skip_space, take_name, format_from_name, string_from, Head, done, open_list, parse_string,
  array_of, parse_array, closing, is_ascii_format, after_bracket, after_name, named, parse_head,
  syntax,
}
use semiconductor_metrology.Host.Pattern.Shorter.{
  length-skip_space, length-take_name, Shorter, string_from-Shorter, ShorterWords,
  read_words-ShorterWords, either_way,
}

-- What a head leaves is shorter than n, and without wildcards its pattern has none.
unfoldable pub HeadFits : Bool → ℕ → Result Head → Type 0
HeadFits wild n (err e) = Unit
HeadFits wild n (ok (done p rest)) = (length rest < n) × (wild ≡ false → IsPlain p)
HeadFits wild n (ok (open_list rest)) = length rest < n

pub HeadFits-mono :
    (wild : Bool) (n m : ℕ) (r : Result Head) → n ≤ m → HeadFits wild n r → HeadFits wild m r
unfolding HeadFits
HeadFits-mono wild n m (err e) l h = tt
HeadFits-mono wild n m (ok (done p rest)) l (h, k) = (omega (arith, l, h), k)
HeadFits-mono wild n m (ok (open_list rest)) l h = omega (arith, l, h)

pub parse_string-HeadFits : (wild : Bool) (t : Text) → HeadFits wild (length t) (parse_string t)
unfolding HeadFits parse_string IsPlain Shorter
parse_string-HeadFits wild t = by_result (string_from [] false t) (string_from-Shorter t false [])
  where
    by_result :
        (r : Result (Text × Text))
        → Shorter (length t) r
        → HeadFits wild
            (length t)
            (r >>= λ (value, rest). ok (done (exact (array ascii value)) rest))
    by_result (err e) h = tt
    by_result (ok (value, rest)) h = (h, λ w. tt)

unfoldable pub PlainResult : Result Pattern → Type 0
PlainResult (err e) = Unit
PlainResult (ok p) = IsPlain p

pub array_of-PlainResult :
    (n : Floats) (f : Format) (words : List Text) → PlainResult (array_of n f words)
unfolding PlainResult array_of IsPlain
array_of-PlainResult n f words = ground arith

pub parse_array-HeadFits :
    (n : Floats) (wild : Bool) (f : Format) (t : Text)
    → HeadFits wild (length t) (parse_array n f t)
unfolding HeadFits parse_array IsPlain PlainResult ShorterWords
parse_array-HeadFits n wild f t = by_words (read_words t [] []) (read_words-ShorterWords t [] [])
  where
    by_pattern :
        (r : Result Pattern) (rest : Text)
        → PlainResult r
        → length rest < length t
        → HeadFits wild (length t) (r >>= λ p. ok (done p rest))
    by_pattern (err e) rest h l = tt
    by_pattern (ok p) rest h l = (l, λ w. h)

    by_words :
        (o : Option (List Text × Text))
        → ShorterWords (length t) o
        → HeadFits wild (length t) (elim o [
          | none ↦ syntax "an array is not closed"
          | some (words, rest) ↦ array_of n f words >>= λ p. ok (done p rest)
        ])
    by_words none h = tt
    by_words (some (words, rest)) h =
        by_pattern (array_of n f words) rest (array_of-PlainResult n f words) h

pub closing-HeadFits : (f : Format) (t : Text) → HeadFits true (length t) (closing f t)
unfolding HeadFits closing
closing-HeadFits f [] = tt
closing-HeadFits f (c ∷ rest) =
    either_way (HeadFits true (suc (length rest))) (c == b']') _ _ (omega arith, λ w. ground arith)
      tt

pub after_bracket-HeadFits :
    (n : Floats) (wild : Bool) (f : Format) (t : Text)
    → HeadFits wild (length t + 1) (after_bracket n wild f t)
unfolding HeadFits after_bracket
after_bracket-HeadFits n wild f [] =
    either_way (HeadFits wild 1) (is_list_format f) _ _ (omega arith)
      (HeadFits-mono wild 0 1 (parse_array n f []) (omega arith) (parse_array-HeadFits n wild f []))
after_bracket-HeadFits n wild f (c ∷ rest) =
    either_way (HeadFits wild (suc (length rest) + 1)) (c == b'*') _ _ (star wild) (
      either_way (HeadFits wild (suc (length rest) + 1)) (is_list_format f) _ _ (omega arith) (
        HeadFits-mono wild (suc (length rest)) (suc (length rest) + 1) (parse_array n f (c ∷ rest))
          (omega arith) (parse_array-HeadFits n wild f (c ∷ rest))))
  where
    star :
        (wild : Bool)
        → HeadFits wild (suc (length rest) + 1) (
            if wild
            then closing f (skip_space rest)
            else syntax "wildcards are only allowed in patterns")
    star false = tt
    star true =
        HeadFits-mono true (length (skip_space rest)) (suc (length rest) + 1)
          (closing f (skip_space rest)) (omega (arith, length-skip_space rest))
          (closing-HeadFits f (skip_space rest))

pub after_name-HeadFits :
    (n : Floats) (wild : Bool) (f : Format) (t : Text)
    → HeadFits wild (length t + 1) (after_name n wild f t)
unfolding HeadFits after_name
after_name-HeadFits n wild f [] = tt
after_name-HeadFits n wild f (c ∷ rest) =
    either_way (HeadFits wild (suc (length rest) + 1)) (is_ascii_format f && c == b'"') _ _
      (HeadFits-mono wild (length rest) (suc (length rest) + 1) (parse_string rest) (omega arith)
        (parse_string-HeadFits wild rest))
      (either_way (HeadFits wild (suc (length rest) + 1)) (c == b'[') _ _
        (HeadFits-mono wild (length (skip_space rest) + 1) (suc (length rest) + 1)
          (after_bracket n wild f (skip_space rest)) (omega (arith, length-skip_space rest))
          (after_bracket-HeadFits n wild f (skip_space rest)))
        tt)

pub named-HeadFits :
    (n : Floats) (wild : Bool) (t : Text) → HeadFits wild (length t) (named n wild (take_name t))
unfolding HeadFits named
named-HeadFits n wild t = by_name (take_name t) (length-take_name t)
  where
    by_format :
        (o : Option Format) (rest : Text)
        → length rest < length t
        → HeadFits wild
            (length t)
            (elim o [ none ↦ syntax "unknown item type" | some f ↦ after_name n wild f rest ])
    by_format none rest l = tt
    by_format (some f) rest l =
        HeadFits-mono wild (length rest + 1) (length t) (after_name n wild f rest)
          (omega (arith, l)) (after_name-HeadFits n wild f rest)

    by_name :
        (x : Text × Text)
        → length x.0 + length x.1 ≡ length t
        → HeadFits wild (length t) (named n wild x)
    by_name ([], rest) l = tt
    by_name (c ∷ name, rest) l = by_format (format_from_name (c ∷ name)) rest (omega (arith, l))

pub parse_head-HeadFits :
    (n : Floats) (wild : Bool) (t : Text) → HeadFits wild (length t) (parse_head n wild t)
unfolding HeadFits parse_head IsPlain
parse_head-HeadFits n wild [] = tt
parse_head-HeadFits n wild (c ∷ rest) =
    either_way (HeadFits wild (suc (length rest))) (c == b'*') _ _ (star wild)
      (named-HeadFits n wild (c ∷ rest))
  where
    star :
        (wild : Bool)
        → HeadFits wild (suc (length rest)) (
            if wild
            then ok (done any_item rest)
            else syntax "wildcards are only allowed in patterns")
    star false = tt
    star true = (omega arith, λ w. ground arith)
