-- ===== src/Host/Pattern/Shorter.antt =====
-- What the character loops of src/host_sim/pattern.cpp leave of the text.
use semiconductor_metrology.Base.{
  ℕ, suc, ◌+◌, ◌≤◌, ◌<◌, Bool, true, false, ◌||◌, ◌==◌, List, [], ◌∷◌, ◌++◌, Option, none, some,
  Result, ok, err, if◌then◌else◌, Text, length, ◌≡◌, refl, arith,
}
use semiconductor_metrology.Host.Pattern.Words.{read_words}
use semiconductor_metrology.Host.Pattern.Parser.{skip_space, take_name, string_from}

pub length-skip_space : (t : Text) → length (skip_space t) ≤ length t
unfolding skip_space
length-skip_space [] = omega arith
length-skip_space (c ∷ cs) = ground (arith, length-skip_space cs)

pub length-take_name : (t : Text) → length (take_name t).0 + length (take_name t).1 ≡ length t
unfolding take_name
length-take_name [] = refl
length-take_name (c ∷ cs) = ground (arith, length-take_name cs)

unfoldable pub Shorter : {A : Type 0} → ℕ → Result (A × Text) → Type 0
Shorter n (err e) = Unit
Shorter n (ok (a, rest)) = length rest < n

pub Shorter-mono :
    {A : Type 0} (n m : ℕ) (r : Result (A × Text)) → n ≤ m → Shorter n r → Shorter m r
unfolding Shorter
Shorter-mono n m (err e) l h = tt
Shorter-mono n m (ok (a, rest)) l h = omega (arith, l, h)

pub either_way :
    {X : Type 0} (P : X → Type 0) (b : Bool) (x y : X) → P x → P y → P (if b then x else y)
either_way P true x y h k = h
either_way P false x y h k = k

pub string_from-Shorter :
    (t : Text) (escaped : Bool) (value : Text) → Shorter (length t) (string_from value escaped t)
unfolding Shorter string_from
string_from-Shorter [] false value = tt
string_from-Shorter [] true value = tt
string_from-Shorter (c ∷ cs) false value =
    either_way (Shorter (suc (length cs))) (c == b'"') _ _ (omega arith) (
      Shorter-mono (length cs) (suc (length cs)) (string_from _ _ cs) (omega arith)
        (string_from-Shorter cs _ _))
string_from-Shorter (c ∷ cs) true value =
    either_way (Shorter (suc (length cs))) (c == b'"' || c == b'\\') _ _
      (Shorter-mono (length cs) (suc (length cs)) (string_from (value ++ (c ∷ [])) false cs)
        (omega arith) (string_from-Shorter cs false (value ++ (c ∷ []))))
      tt

unfoldable pub ShorterWords : ℕ → Option (List Text × Text) → Type 0
ShorterWords n none = Unit
ShorterWords n (some (ws, rest)) = length rest < n

pub ShorterWords-mono :
    (n m : ℕ) (o : Option (List Text × Text)) → n ≤ m → ShorterWords n o → ShorterWords m o
unfolding ShorterWords
ShorterWords-mono n m none l h = tt
ShorterWords-mono n m (some (ws, rest)) l h = omega (arith, l, h)

pub read_words-ShorterWords :
    (t word : Text) (words : List Text) → ShorterWords (length t) (read_words t word words)
unfolding ShorterWords read_words
read_words-ShorterWords [] word words = tt
read_words-ShorterWords (c ∷ cs) word words =
    either_way (ShorterWords (suc (length cs))) (c == b']') _ _ (omega arith) (
      ShorterWords-mono (length cs) (suc (length cs)) (read_words cs _ _) (omega arith)
        (read_words-ShorterWords cs _ _))
