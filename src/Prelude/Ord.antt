-- ===== src/Prelude/Ord.antt =====
-- The derived `Ord` of the identifiers and keys: a comparison with its laws.
use Prim.Native.Nat.{ℕ, compare, Ordering}
use Prim.Native.Nat.Ordering.{lt, eq, gt}
use mathlib.Core.Path.{◌≡◌, refl}
use mathlib.Core.Logic.{◌↔◌}
use mathlib.Core.Bool.{Bool, true, false}
use mathlib.Core.List.{List, [], ◌∷◌}
use native.Mathlib.Omega.{arith}

abbrev pub flip : Ordering → Ordering
flip lt = gt
flip eq = eq
flip gt = lt

-- The first difference decides.
abbrev pub first : Ordering → Ordering → Ordering
first eq o = o
first lt _ = lt
first gt _ = gt

abbrev pub is_eq : Ordering → Bool
is_eq eq = true
is_eq _ = false

abbrev pub is_lt : Ordering → Bool
is_lt lt = true
is_lt _ = false

pub record Ord (A : Type 0) : Type 0 where
  pub cmp : A → A → Ordering
  pub cmp_flip : (a b : A) → cmp b a ≡ flip (cmp a b)
  pub cmp_eq : (a b : A) → cmp a b ≡ eq → a ≡ b
  pub cmp_trans : (a b c : A) → cmp a b ≡ lt → cmp b c ≡ lt → cmp a c ≡ lt

flip_fixed : (o : Ordering) → o ≡ flip o → o ≡ eq
flip_fixed lt h = cc
flip_fixed eq h = refl
flip_fixed gt h = cc

module _ {A : Type 0} ⦃o : Ord A⦄ where
  -- `a == b` and `a < b` of the derived instances.
  abbrev pub equal : A → A → Bool
  equal a b = is_eq (o.cmp a b)

  abbrev pub less : A → A → Bool
  less a b = is_lt (o.cmp a b)

  pub cmp_self : (a : A) → o.cmp a a ≡ eq
  cmp_self a = flip_fixed (o.cmp a a) (o.cmp_flip a a)

  pub equal_iff : (a b : A) → (equal a b ≡ true) ↔ (a ≡ b)
  equal_iff a b = (λ h. ground (arith, o.cmp_eq a b), λ h. rw h (rw (cmp_self b)))

  pub less_trans : (a b c : A) → less a b ≡ true → less b c ≡ true → less a c ≡ true
  less_trans a b c h k = ground (arith, o.cmp_trans a b c)

-- Arrays of bytes compare lexicographically.
abbrev pub cmp_bytes : List ℕ → List ℕ → Ordering
cmp_bytes [] [] = eq
cmp_bytes [] (y ∷ ys) = lt
cmp_bytes (x ∷ xs) [] = gt
cmp_bytes (x ∷ xs) (y ∷ ys) = first (compare x y) (cmp_bytes xs ys)

pub cmp_bytes-flip : (xs ys : List ℕ) → cmp_bytes ys xs ≡ flip (cmp_bytes xs ys)
cmp_bytes-flip [] [] = refl
cmp_bytes-flip [] (y ∷ ys) = refl
cmp_bytes-flip (x ∷ xs) [] = refl
cmp_bytes-flip (x ∷ xs) (y ∷ ys) = ground (arith, cmp_bytes-flip xs ys)

pub cmp_bytes-eq : (xs ys : List ℕ) → cmp_bytes xs ys ≡ eq → xs ≡ ys
cmp_bytes-eq [] [] h = refl
cmp_bytes-eq [] (y ∷ ys) h = cc
cmp_bytes-eq (x ∷ xs) [] h = cc
cmp_bytes-eq (x ∷ xs) (y ∷ ys) h = ground (arith, cmp_bytes-eq xs ys)

pub cmp_bytes_trans :
    (xs ys zs : List ℕ) → cmp_bytes xs ys ≡ lt → cmp_bytes ys zs ≡ lt → cmp_bytes xs zs ≡ lt
cmp_bytes_trans [] [] zs h k = k
cmp_bytes_trans [] (y ∷ ys) [] h k = cc
cmp_bytes_trans [] (y ∷ ys) (z ∷ zs) h k = refl
cmp_bytes_trans (x ∷ xs) [] zs h k = cc
cmp_bytes_trans (x ∷ xs) (y ∷ ys) [] h k = cc
cmp_bytes_trans (x ∷ xs) (y ∷ ys) (z ∷ zs) h k = ground (arith, cmp_bytes_trans xs ys zs)

instance abbrev pub bytes_ord : Ord (List ℕ)
bytes_ord = record {
  cmp = cmp_bytes;
  cmp_flip = cmp_bytes-flip;
  cmp_eq = cmp_bytes-eq;
  cmp_trans = cmp_bytes_trans;
}

abbrev pub nat_cmp : ℕ → ℕ → Ordering
nat_cmp a b = compare a b

pub nat_cmp-flip : (a b : ℕ) → nat_cmp b a ≡ flip (nat_cmp a b)
nat_cmp-flip a b = ground arith

pub nat_cmp-eq : (a b : ℕ) → nat_cmp a b ≡ eq → a ≡ b
nat_cmp-eq a b h = ground arith

pub nat_cmp_trans : (a b c : ℕ) → nat_cmp a b ≡ lt → nat_cmp b c ≡ lt → nat_cmp a c ≡ lt
nat_cmp_trans a b c h k = ground arith

instance abbrev pub nat_ord : Ord ℕ
nat_ord = record {
  cmp = nat_cmp;
  cmp_flip = nat_cmp-flip;
  cmp_eq = nat_cmp-eq;
  cmp_trans = nat_cmp_trans;
}
