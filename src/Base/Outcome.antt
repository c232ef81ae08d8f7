-- ===== src/Base/Outcome.antt =====
-- include/ssim/core/result.hpp: an expected failure is a value with a reason code and a message.
use Prim.Native.Nat.{ℕ}
use Prim.Native.String.{String}
use mathlib.Core.Path.{◌≡◌, refl}
use mathlib.Core.Bool.{Bool, true, false}
use mathlib.Core.Option.{Option, none, some}

pub record Error : Type 0 where
  pub code : ℕ
  pub message : String

pub data Result {ℓ} (A : Type ℓ) : Type ℓ where
  ok : A → Result A
  err : Error → Result A

-- Result::has_value, which is also the conversion to bool.
abbrev pub has_value {ℓ} : {A : Type ℓ} → Result A → Bool
has_value (ok a) = true
has_value (err e) = false

-- `if (!r) return Result::err(r.error());`
infixl 5 ◌>>=◌
abbrev pub ◌>>=◌ {ℓ κ} : {A : Type ℓ} {B : Type κ} → Result A → (A → Result B) → Result B
ok v >>= next = next v
err why >>= next = err why

abbrev pub fail {ℓ} : {A : Type ℓ} → ℕ → String → Result A
fail c m = err (record { code = c; message = m })

-- `if (test) return Result::err(...);`
abbrev pub fail_if : Bool → ℕ → String → Result (Unit {0})
fail_if true c m = fail c m
fail_if false c m = ok tt

-- `if (p == nullptr) return Result::err(...);`
abbrev pub or_fail {ℓ} : {A : Type ℓ} → Option A → ℕ → String → Result A
or_fail none c m = fail c m
or_fail (some a) c m = ok a

infixl 5 ◌>>◌
abbrev pub ◌>>◌ {ℓ} : {B : Type ℓ} → Result (Unit {0}) → Result B → Result B
check >> rest = check >>= λ done. rest

-- What a chain that succeeds says of its first call.
pub >>=-eq-ok {ℓ κ} :
    {A : Type ℓ} {B : Type κ} (first : Result A) (next : A → Result B) {out : B}
    → (first >>= next) ≡ ok out
    → (v : A) × (first ≡ ok v) × (next v ≡ ok out)
>>=-eq-ok (ok v) next h = (v, refl, h)
>>=-eq-ok (err why) next h = cc

-- The code that a failure carries, and a code of no failure for a success.
abbrev pub Fails {ℓ} : {A : Type ℓ} → Result A → ℕ → Type 0
Fails (ok a) c = ⊥
Fails (err e) c = e.code ≡ c

-- std::string's operator +.
abbrev pub join : String → String → String
join s t = Prim.Native.String.◌++◌ s t

-- Result::value, of a result that its caller knows to hold one; a default stands for the rest.
abbrev pub value_or {ℓ} : {A : Type ℓ} → A → Result A → A
value_or d (ok a) = a
value_or d (err e) = d
