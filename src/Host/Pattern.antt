-- ===== src/Host/Pattern.antt =====
-- Patterns for SECS-II items (include/ssim/host_sim/pattern.hpp, src/host_sim/pattern.cpp).
pub mod Words
pub mod Parser
pub mod Shorter
pub mod Heads
pub mod Total
use semiconductor_metrology.Base.{ℕ, Bool, true, false, ◌&&◌, ◌==◌, List, [], ◌∷◌, ◌≡◌, refl, ap₂}
use semiconductor_metrology.Secs2.Item.{
  Format, Item, Items, array, nil, cons, f4, f8, format, format_code, is_list_format,
}

-- Equality of floats and doubles, on bit patterns: it is not that of the patterns, as of NaN and -0.
pub record FloatEquality : Type 0 where
  pub float_eq : ℕ → ℕ → Bool
  pub double_eq : ℕ → ℕ → Bool

unfoldable pub element_eq : FloatEquality → Format → ℕ → ℕ → Bool
element_eq e f4 a b = e.float_eq a b
element_eq e f8 a b = e.double_eq a b
element_eq e _ a b = a == b

unfoldable pub elements_eq : FloatEquality → Format → List ℕ → List ℕ → Bool
unfolding element_eq
elements_eq e f [] [] = true
elements_eq e f (x ∷ xs) (y ∷ ys) = element_eq e f x y && elements_eq e f xs ys
elements_eq e f _ _ = false

abbrev pub same_format : Format → Format → Bool
same_format f g = format_code f == format_code g

-- operator== of items.
unfoldable mutual
  unfolding elements_eq

  pub item_eq : FloatEquality → Item → Item → Bool
  item_eq e (Item.list is) (Item.list js) = items_eq e is js
  item_eq e (array f xs) (array g ys) = same_format f g && elements_eq e f xs ys
  item_eq e _ _ = false

  pub items_eq : FloatEquality → Items → Items → Bool
  items_eq e nil nil = true
  items_eq e (cons i is) (cons j js) = item_eq e i j && items_eq e is js
  items_eq e _ _ = false

mutual
  pub data Pattern : Type 0 where
    any_item any_list : Pattern
    any_of_format : Format → Pattern
    list : Patterns → Pattern
    exact : Item → Pattern

  pub data Patterns : Type 0 where
    none_left : Patterns
    one_more : Pattern → Patterns → Patterns

unfoldable mutual
  unfolding item_eq

  pub matches : FloatEquality → Pattern → Item → Bool
  matches e any_item item = true
  matches e (any_of_format f) item = same_format (format item) f
  matches e any_list item = is_list_format (format item)
  matches e (exact x) item = item_eq e item x
  matches e (Pattern.list ps) (Item.list items) = all_match e ps items
  matches e (Pattern.list ps) (array f xs) = false

  -- The counts are equal, and so are the elements.
  pub all_match : FloatEquality → Patterns → Items → Bool
  all_match e none_left nil = true
  all_match e (one_more p ps) (cons i is) = matches e p i && all_match e ps is
  all_match e _ _ = false

unfoldable mutual
  pub to_item : Pattern → Item
  to_item (exact x) = x
  to_item (Pattern.list ps) = Item.list (to_items ps)
  to_item _ = Item.list nil

  pub to_items : Patterns → Items
  to_items none_left = nil
  to_items (one_more p ps) = cons (to_item p) (to_items ps)

-- No wildcards.
unfoldable mutual
  pub IsPlain : Pattern → Type 0
  IsPlain (exact x) = Unit
  IsPlain (Pattern.list ps) = ArePlain ps
  IsPlain _ = ⊥

  pub ArePlain : Patterns → Type 0
  ArePlain none_left = Unit
  ArePlain (one_more p ps) = IsPlain p × ArePlain ps

mutual
  unfolding matches item_eq to_item IsPlain

  pub matches-to_item :
      (e : FloatEquality) (p : Pattern) (i : Item)
      → IsPlain p
      → matches e p i ≡ item_eq e i (to_item p)
  matches-to_item e any_item i h = elim h [ ]
  matches-to_item e any_list i h = elim h [ ]
  matches-to_item e (any_of_format f) i h = elim h [ ]
  matches-to_item e (exact x) i h = refl
  matches-to_item e (Pattern.list ps) (Item.list items) h = all_match-to_items e ps items h
  matches-to_item e (Pattern.list ps) (array f xs) h = refl

  all_match-to_items :
      (e : FloatEquality) (ps : Patterns) (is : Items)
      → ArePlain ps
      → all_match e ps is ≡ items_eq e is (to_items ps)
  all_match-to_items e none_left nil h = refl
  all_match-to_items e none_left (cons i is) h = refl
  all_match-to_items e (one_more p ps) nil h = refl
  all_match-to_items e (one_more p ps) (cons i is) (hp, hs) =
      ap₂ (λ a b. a && b) (matches-to_item e p i hp) (all_match-to_items e ps is hs)
