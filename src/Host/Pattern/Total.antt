-- ===== src/Host/Pattern/Total.antt =====
-- The parser of src/host_sim/pattern.cpp returns, and what it says of wildcards holds.
use semiconductor_metrology.Base.{
  ℕ, zero, suc, ◌+◌, ◌≤◌, ◌<◌, Bool, true, false, ◌==◌, [], ◌∷◌, Option, none, some, Result, ok,
  err, Text, length, ◌≡◌, refl, arith,
}
use semiconductor_metrology.Secs2.Item.{Item}
use semiconductor_metrology.Host.Pattern.{
  Pattern, Patterns, none_left, one_more, to_item, IsPlain, ArePlain, FloatEquality, item_eq,
  matches, matches-to_item,
}
use semiconductor_metrology.Host.Pattern.Words.{Floats}
use semiconductor_metrology.Host.Pattern.Parser.{
  skip_space, Head, done, open_list, parse_head, Outcome, and_then, parse_children, parse_node,
  ended, syntax, parse_all, parse_item, parse_pattern,
}
use semiconductor_metrology.Host.Pattern.Shorter.{length-skip_space}
use semiconductor_metrology.Host.Pattern.Heads.{HeadFits, parse_head-HeadFits}

-- The parser has returned, what it leaves is shorter than n, and without wildcards a pattern has none.
Fits : Bool → ℕ → Outcome Pattern → Type 0
Fits wild n none = ⊥
Fits wild n (some (err e)) = Unit
Fits wild n (some (ok (p, rest))) = (length rest < n) × (wild ≡ false → IsPlain p)

AllFit : Bool → ℕ → Outcome Patterns → Type 0
AllFit wild n none = ⊥
AllFit wild n (some (err e)) = Unit
AllFit wild n (some (ok (ps, rest))) = (length rest < n) × (wild ≡ false → ArePlain ps)

AllFit-mono :
    (wild : Bool) (n m : ℕ) (o : Outcome Patterns) → n ≤ m → AllFit wild n o → AllFit wild m o
unfolding AllFit
AllFit-mono wild n m none l h = h
AllFit-mono wild n m (some (err e)) l h = tt
AllFit-mono wild n m (some (ok (ps, rest))) l (h, k) = (omega (arith, l, h), k)

children-AllFit :
    (wild : Bool) (node : Text → Outcome Pattern) (bound : ℕ)
    → ((t : Text) → length t < bound → Fits wild (length t) (node t))
    → (fuel : ℕ) (t : Text) → length t < fuel
    → length t < bound
    → AllFit wild (length t + 1) (parse_children node fuel t)
unfolding AllFit Fits parse_children ArePlain
children-AllFit wild node bound fits zero t l b = omega (arith, l)
children-AllFit wild node bound fits (suc fuel) t l b =
    from (skip_space t) (length-skip_space t) (children-AllFit wild node bound fits fuel)
  where
    more :
        (p : Pattern) (n : ℕ) (o : Outcome Patterns)
        → (wild ≡ false → IsPlain p)
        → n ≤ length t
        → AllFit wild n o
        → AllFit wild (length t + 1) (and_then o (λ ps rest. some (ok (one_more p ps, rest))))
    more p n none plain le h = h
    more p n (some (err e)) plain le h = tt
    more p n (some (ok (ps, rest))) plain le (h, k) = (omega (arith, h, le), λ w. (plain w, k w))

    child :
        (c : Text) (o : Outcome Pattern)
        → length c ≤ length t
        → Fits wild (length c) o
        → ((t : Text)
            → length t < fuel
            → length t < bound
            → AllFit wild (length t + 1) (parse_children node fuel t))
        → AllFit wild (length t + 1) (
            and_then o (λ p rest.
              and_then
                (parse_children node fuel rest)
                (λ ps rest. some (ok (one_more p ps, rest)))))
    child c none le h rest = h
    child c (some (err e)) le h rest = tt
    child c (some (ok (p, r))) le (h, k) rest =
        more p (length r + 1) (parse_children node fuel r) k (omega (arith, h, le))
          (rest r (omega (arith, h, le, l)) (omega (arith, h, le, b)))

    from :
        (s : Text)
        → length s ≤ length t
        → ((t : Text)
            → length t < fuel
            → length t < bound
            → AllFit wild (length t + 1) (parse_children node fuel t))
        → AllFit wild (length t + 1) (elim s [
          | [] ↦ some (syntax "a list is not closed")
          | c ∷ rest ↦ elim (c == b']') [
            | true ↦ some (ok (none_left, rest))
            | false ↦ and_then (node (c ∷ rest)) (λ p rest.
                and_then
                  (parse_children node fuel rest)
                  (λ ps rest. some (ok (one_more p ps, rest))))
          ]
        ])
    from [] le rest = tt
    from (c ∷ cs) le rest = closes (c == b']')
      where
        closes :
            (x : Bool)
            → AllFit wild (length t + 1) (elim x [
              | true ↦ some (ok (none_left, cs))
              | false ↦ and_then (node (c ∷ cs)) (λ p rest.
                  and_then
                    (parse_children node fuel rest)
                    (λ ps rest. some (ok (one_more p ps, rest))))
            ])
        closes true = (omega (arith, le), λ w. tt)
        closes false = child (c ∷ cs) (node (c ∷ cs)) le (fits (c ∷ cs) (omega (arith, le, b))) rest

node-Fits :
    (n : Floats) (wild : Bool) (fuel : ℕ) (t : Text)
    → length t < fuel
    → Fits wild (length t) (parse_node n wild fuel t)
unfolding Fits AllFit HeadFits parse_node IsPlain
node-Fits n wild zero t l = omega (arith, l)
node-Fits n wild (suc fuel) t l =
    by_head (parse_head n wild (skip_space t)) (parse_head-HeadFits n wild (skip_space t))
      (λ t l. node-Fits n wild fuel t l)
  where
    list_of :
        (r : Text) (o : Outcome Patterns)
        → length r < length t
        → AllFit wild (length r + 1) o
        → Fits wild (length t) (and_then o (λ ps rest. some (ok (Pattern.list ps, rest))))
    list_of r none l h = h
    list_of r (some (err e)) l h = tt
    list_of r (some (ok (ps, rest))) l (h, k) = (omega (arith, h, l), k)

    by_head :
        (h : Result Head)
        → HeadFits wild (length (skip_space t)) h
        → ((t : Text) → length t < fuel → Fits wild (length t) (parse_node n wild fuel t))
        → Fits wild (length t) (elim h [
          | err e ↦ some (err e)
          | ok (done p rest) ↦ some (ok (p, rest))
          | ok (open_list rest) ↦
              and_then
                (parse_children (parse_node n wild fuel) (length rest + 1) rest)
                (λ ps rest. some (ok (Pattern.list ps, rest)))
        ])
    by_head (err e) h node = tt
    by_head (ok (done p rest)) (h, k) node = (omega (arith, h, length-skip_space t), k)
    by_head (ok (open_list rest)) h node =
        list_of rest (parse_children (parse_node n wild fuel) (length rest + 1) rest)
          (omega (arith, h, length-skip_space t))
          (children-AllFit wild (parse_node n wild fuel) fuel node (length rest + 1) rest
            (omega arith) (omega (arith, h, l, length-skip_space t)))

Parsed : Bool → Option (Result Pattern) → Type 0
Parsed wild none = ⊥
Parsed wild (some (err e)) = Unit
Parsed wild (some (ok p)) = wild ≡ false → IsPlain p

all-Parsed : (n : Floats) (wild : Bool) (t : Text) → Parsed wild (parse_all n wild t)
unfolding Parsed Fits parse_all ended
all-Parsed n wild t =
    by_node (parse_node n wild (length t + 1) t) (node-Fits n wild (length t + 1) t (omega arith))
  where
    at_end : (p : Pattern) (s : Text) → (wild ≡ false → IsPlain p) → Parsed wild (some (ended p s))
    at_end p [] h = h
    at_end p (c ∷ cs) h = tt

    by_node :
        (o : Outcome Pattern)
        → Fits wild (length t) o
        → Parsed wild (elim o [
          | none ↦ none
          | some (err e) ↦ some (err e)
          | some (ok (p, rest)) ↦ some (ended p (skip_space rest))
        ])
    by_node none h = h
    by_node (some (err e)) h = tt
    by_node (some (ok (p, rest))) (h, k) = at_end p (skip_space rest) k

pub IsReturned : {A : Type 0} → Option A → Type 0
IsReturned none = ⊥
IsReturned (some a) = Unit

-- The parsed item, against the pattern that was read without wildcards.
pub Matches : FloatEquality → Option (Result Pattern) → Option (Result Item) → Type 0
Matches e none o = ⊥
Matches e (some (err x)) o = o ≡ some (err x)
Matches e (some (ok p)) o =
    (x : Item) × (o ≡ some (ok x)) × ((i : Item) → matches e p i ≡ item_eq e i x)

-- Whatever the text, parse_pattern and parse_item return. What parse_item reads is a pattern without
-- wildcards, which matches exactly the items that are equal to the parsed one.
pub parse-Matches :
    (n : Floats) (e : FloatEquality) (t : Text)
    → IsReturned (parse_pattern n t) × Matches e (parse_all n false t) (parse_item n t)
unfolding IsReturned Matches parse_pattern parse_item Parsed
parse-Matches n e t = (
  returned (parse_all n true t) (all-Parsed n true t),
  item (parse_all n false t) (all-Parsed n false t),
)
  where
    returned : (o : Option (Result Pattern)) → Parsed true o → IsReturned o
    returned none h = h
    returned (some r) h = tt

    item :
        (o : Option (Result Pattern))
        → Parsed false o
        → Matches e o (elim o [
          | none ↦ none
          | some (err x) ↦ some (err x)
          | some (ok p) ↦ some (ok (to_item p))
        ])
    item none h = h
    item (some (err x)) h = refl
    item (some (ok p)) h = (to_item p, refl, λ i. matches-to_item e p i (h refl))
