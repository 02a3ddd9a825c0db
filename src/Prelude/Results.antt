-- ===== src/Prelude/Results.antt =====
-- `std::result::Result` for any error type, with `?` as the bind of `do`.
use mathlib.Core.Path.{◌≡◌, refl, subst}
use mathlib.Core.Logic.{◌⊎◌, inl, inr}
use mathlib.Core.Bool.{Bool, true, false}
use mathlib.Core.Option.{Option, none, some}
use native.Mathlib.Omega.{arith}

pub data Result {ℓ} (E : Type 0) (A : Type ℓ) : Type ℓ where
  ok : A → Result E A
  err : E → Result E A

infixl 5 ◌>>=◌
abbrev pub ◌>>=◌ {ℓ κ} :
    {A : Type ℓ} {B : Type κ} {E : Type 0} → Result E A → (A → Result E B) → Result E B
err stop >>= next = err stop
ok value >>= next = next value

infixl 5 ◌>>◌
abbrev pub ◌>>◌ {ℓ} : {B : Type ℓ} {E : Type 0} → Result E (Unit {0}) → Result E B → Result E B
first >> next = first >>= (λ _. next)

-- `if test { return Err(e); }`
abbrev pub reject : {E : Type 0} → Bool → E → Result E (Unit {0})
reject true e = err e
reject false e = ok tt

-- `ok_or`
abbrev pub ok_or {ℓ} : {E : Type 0} {A : Type ℓ} → Option A → E → Result E A
ok_or none e = err e
ok_or (some a) e = ok a

module _ {ℓ κ} {E : Type 0} {A : Type ℓ} {B : Type κ} where
  -- A chain that succeeded went through a value of its first step.
  pub >>=-eq-ok :
      (first : Result E A) (next : A → Result E B) {b : B}
      → (first >>= next) ≡ ok b
      → (a : A) × (first ≡ ok a) × (next a ≡ ok b)
  >>=-eq-ok (err stop) next h = cc
  >>=-eq-ok (ok value) next h = (value, refl, h)

-- A block that goes on behind a check passed the check.
pub reject_inv {ℓ} :
    {E : Type 0} {A : Type ℓ} (b : Bool) (e : E) (m : Result E A) {a : A}
    → (reject b e >> m) ≡ ok a
    → b ≡ false
reject_inv true e m h = cc
reject_inv false e m h = refl

pub reject_then {ℓ} :
    {E : Type 0} {A : Type ℓ} (b : Bool) (e : E) (m : Result E A) {a : A}
    → (reject b e >> m) ≡ ok a
    → m ≡ ok a
reject_then true e m h = cc
reject_then false e m h = h

pub ok_or-eq-ok {ℓ} :
    {E : Type 0} {A : Type ℓ} (o : Option A) (e : E) (a : A) → ok_or o e ≡ ok a → o ≡ some a
ok_or-eq-ok none e a h = cc
ok_or-eq-ok (some b) e a h = ground (arith, h)

module _ {ℓ} {E : Type 0} {A : Type ℓ} where
  pub Result-cases : (r : Result E A) → ((a : A) × (r ≡ ok a)) ⊎ ((e : E) × (r ≡ err e))
  Result-cases (err stop) = inr (stop, refl)
  Result-cases (ok value) = inl (value, refl)

  pub ok-subst {κ} : (P : A → Type κ) (a b : A) → ◌≡◌ {A = Result E A} (ok a) (ok b) → P a → P b
  ok-subst P a b h p = subst P (ground (arith, h)) p
