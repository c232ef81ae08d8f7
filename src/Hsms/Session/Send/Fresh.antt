-- ===== src/Hsms/Session/Send/Fresh.antt =====
-- The rounds of the loop of Session::allocate_system_bytes (src/secsgem/hsms/session.cpp): their
-- candidates, and the numbers that are taken.
use semiconductor_metrology.Base.{
  ℕ, zero, suc, ◌+◌, ◌%◌, ◌^◌, ◌≤◌, ◌<◌, ◌≡◌, ◌≢◌, refl, sym, ap, subst, ◌∙◌, Bool, true, false,
  List, [], ◌∷◌, Option, none, some, ◌==◌, ◌||◌, if◌then◌else◌, length, arith, Bool-cases, inl, inr,
}
use semiconductor_metrology.Hsms.Session.{Session, Transactions, is_open, awaits}
use semiconductor_metrology.Hsms.Session.Send.{search, is_taken, allocate_system_bytes}

unfoldable mem : ℕ → List ℕ → Bool
mem a [] = false
mem a (y ∷ ys) = y == a || mem a ys

unfoldable without : ℕ → List ℕ → List ℕ
without x [] = []
without x (y ∷ ys) = if y == x then ys else y ∷ without x ys

mem-without : (a x : ℕ) (ys : List ℕ) → a ≢ x → mem a (without x ys) ≡ mem a ys
unfolding mem without
mem-without a x [] h = refl
mem-without a x (y ∷ ys) h = ground (arith, mem-without a x ys h)

length-without : (x : ℕ) (ys : List ℕ) → mem x ys ≡ true → suc (length (without x ys)) ≡ length ys
unfolding mem without
length-without x [] h = ground arith
length-without x (y ∷ ys) h = ground (arith, length-without x ys)

search-taken :
    (fuel : ℕ) (t : ℕ → Bool) (c : ℕ)
    → t c ≡ true
    → search (suc fuel) t c ≡ search fuel t ((c + 1) % 2 ^ 32)
unfolding search
search-taken fuel t c h = rw (search, h)

search-free : (fuel : ℕ) (t : ℕ → Bool) (c : ℕ) → t c ≡ false → search (suc fuel) t c ≡ some c
unfolding search
search-free fuel t c h = rw (search, h)

-- Tests that agree on every candidate of the rounds give the same outcome.
search-step :
    (fuel : ℕ) (t u : ℕ → Bool) (c : ℕ)
    → t c ≡ u c
    → search fuel t ((c + 1) % 2 ^ 32) ≡ search fuel u ((c + 1) % 2 ^ 32)
    → search (suc fuel) t c ≡ search (suc fuel) u c
search-step fuel t u c same rest = elim (Bool-cases (u c)) [
  | inl e ↦ search-taken fuel t c (same ∙ e) ∙ rest ∙ sym (search-taken fuel u c e)
  | inr e ↦ search-free fuel t c (same ∙ e) ∙ sym (search-free fuel u c e)
]

search-cong :
    (t u : ℕ → Bool) (same : (a : ℕ) → t a ≡ u a) (fuel c : ℕ) → search fuel t c ≡ search fuel u c
unfolding search
search-cong t u same zero c = refl
search-cong t u same (suc fuel) c =
    search-step fuel t u c (same c) (search-cong t u same fuel ((c + 1) % 2 ^ 32))

-- A round after that of x, less than a full turn later, has another candidate.
later : (x d : ℕ) → x < 2 ^ 32 → suc d < 2 ^ 32 → (x + 1 + d) % 2 ^ 32 ≢ x
later x d hx hd = omega arith

next_candidate : (x d : ℕ) → (x + 1 + suc d) % 2 ^ 32 ≡ ((x + 1 + d) % 2 ^ 32 + 1) % 2 ^ 32
next_candidate x d = omega arith

search-without :
    (fuel : ℕ) (ys : List ℕ) (x d c : ℕ)
    → x < 2 ^ 32
    → d + fuel < 2 ^ 32
    → c ≡ (x + 1 + d) % 2 ^ 32
    → search fuel (λ a. mem a ys) c ≡ search fuel (λ a. mem a (without x ys)) c
unfolding search
search-without zero ys x d c hx hd hc = refl
search-without (suc fuel) ys x d c hx hd hc =
    search-step fuel (λ a. mem a ys) (λ a. mem a (without x ys)) c
      (sym (mem-without c x ys (λ e. later x d hx (omega arith) (sym hc ∙ e))))
      (search-without fuel ys x (suc d) ((c + 1) % 2 ^ 32) hx (omega arith)
        (omega (arith, next_candidate x d)))

search_total :
    (fuel : ℕ) (ys : List ℕ) (c : ℕ)
    → length ys < fuel
    → fuel ≤ 2 ^ 32
    → c < 2 ^ 32
    → (a : ℕ) × (search fuel (λ a. mem a ys) c ≡ some a)
search_total zero ys c h hf hc = ground arith
search_total (suc fuel) ys c h hf hc = elim (Bool-cases (mem c ys)) [
  | inl e ↦
      let found =
        search_total fuel (without c ys) ((c + 1) % 2 ^ 32) (omega (arith, length-without c ys e))
          (omega arith) (omega arith) in
      (
        found.0,
        search-taken fuel (λ a. mem a ys) c e
            ∙ search-without fuel ys c 0 ((c + 1) % 2 ^ 32) hc (omega arith) (omega arith)
            ∙ found.1,
      )
  | inr e ↦ (c, search-free fuel (λ a. mem a ys) c e)
]

pub search-fresh :
    (t : ℕ → Bool) (fuel c a : ℕ)
    → c < 2 ^ 32
    → search fuel t c ≡ some a
    → (t a ≡ false) × (a < 2 ^ 32)
unfolding search
search-fresh t zero c a hc h = ground arith
search-fresh t (suc fuel) c a hc h = elim (Bool-cases (t c)) [
  | inl e ↦
      search-fresh t fuel ((c + 1) % 2 ^ 32) a (omega arith) (sym (search-taken fuel t c e) ∙ h)
  | inr e ↦
      subst (λ x. (t x ≡ false) × (x < 2 ^ 32)) (same (sym (search-free fuel t c e) ∙ h)) (e, hc)
]
  where
    same : some c ≡ some a → c ≡ a
    same eq = cc

-- The numbers that are taken, as a list.
keys : Transactions → List ℕ
keys [] = []
keys ((k, deadline) ∷ rest) = k ∷ keys rest

length-keys : (opened : Transactions) → length (keys opened) ≡ length opened
unfolding keys
length-keys [] = refl
length-keys ((k, deadline) ∷ rest) = ap suc (length-keys rest)

mem-keys : (opened : Transactions) (a : ℕ) → is_open a opened ≡ mem a (keys opened)
unfolding keys mem is_open
mem-keys [] a = refl
mem-keys ((k, deadline) ∷ rest) a = ap (◌||◌ (k == a)) (mem-keys rest a)

taken_list : Option ℕ → Transactions → List ℕ
taken_list none opened = 0 ∷ keys opened
taken_list (some p) opened = 0 ∷ p ∷ keys opened

length-taken_list :
    (pending : Option ℕ) (opened : Transactions)
    → length (taken_list pending opened) < length opened + 3
unfolding taken_list
length-taken_list none opened = omega (arith, length-keys opened)
length-taken_list (some p) opened = omega (arith, length-keys opened)

mem-taken_list :
    (pending : Option ℕ) (opened : Transactions) (a : ℕ)
    → (a == 0 || is_open a opened || awaits pending a) ≡ mem a (taken_list pending opened)
unfolding taken_list mem awaits
mem-taken_list none opened a = ground (arith, mem-keys opened a)
mem-taken_list (some p) opened a = ground (arith, mem-keys opened a)

-- With at most 2 ^ 32 - 3 open requests, allocate_system_bytes returns: system bytes other than
-- 0 that no open request and no pending linktest has.
pub allocate_system_bytes-fresh :
    (s : Session)
    → length s.transactions + 3 ≤ 2 ^ 32
    → s.next_system_bytes < 2 ^ 32
    → (c : ℕ) × (allocate_system_bytes s
        ≡ some (c, record s { next_system_bytes = (c + 1) % 2 ^ 32 }))
      × (c < 2 ^ 32)
      × (c ≢ 0)
      × (is_open c s.transactions ≡ false)
      × (awaits s.pending_linktest c ≡ false)
unfolding allocate_system_bytes is_taken
allocate_system_bytes-fresh s h hn =
    let found =
      search_total (length s.transactions + 3) (taken_list s.pending_linktest s.transactions)
        s.next_system_bytes (length-taken_list s.pending_linktest s.transactions) h hn in
    let eq =
      search-cong (is_taken s) (λ a. mem a (taken_list s.pending_linktest s.transactions))
        (mem-taken_list s.pending_linktest s.transactions) (length s.transactions + 3)
        s.next_system_bytes
      ∙ found.1 in
    let fresh =
      search-fresh (is_taken s) (length s.transactions + 3) s.next_system_bytes found.0 hn eq in
    let apart = untaken found.0 fresh.0 in
    (found.0, rw (allocate_system_bytes, eq), fresh.1, apart.0, apart.1, apart.2)
  where
    untaken :
        (c : ℕ)
        → is_taken s c ≡ false
        → (c ≢ 0) × (is_open c s.transactions ≡ false) × (awaits s.pending_linktest c ≡ false)
    untaken c e = ground arith
