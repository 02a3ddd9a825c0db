-- ===== src/Codec/Words.antt =====
-- `to_be_bytes` and its inverse, a fold over the bytes.
use mathlib.Core.List.{reverse, reverse-cons, reverse-reverse}
use mesh_lab.Prelude.{
  ℕ, zero, suc, ◌+◌, ◌*◌, ◌/◌, ◌%◌, ◌^◌, ◌≤◌, ◌<◌, ◌≡◌, refl, List, [], ◌∷◌, ◌++◌, length,
  length-append, length-reverse, All, All-append, All-reverse, arith,
}
use native.Mathlib.Nat.{pow-suc}
use mesh_lab.Durable.{IsByte}

-- The `k` low bytes of `n`, most significant first.
unfoldable pub be_bytes : ℕ → ℕ → List ℕ
be_bytes zero n = []
be_bytes (suc k) n = be_bytes k (n / 256) ++ (n % 256) ∷ []

unfoldable pub from_be : ℕ → List ℕ → ℕ
from_be acc [] = acc
from_be acc (x ∷ xs) = from_be (acc * 256 + x) xs

pub length-be_bytes : (k n : ℕ) → length (be_bytes k n) ≡ k
unfolding be_bytes
length-be_bytes zero n = refl
length-be_bytes (suc k) n =
    omega
      (arith, length-append (be_bytes k (n / 256)) ((n % 256) ∷ []), length-be_bytes k (n / 256))

pub be_bytes-IsByte : (k n : ℕ) → All IsByte (be_bytes k n)
unfolding be_bytes
be_bytes-IsByte zero n = tt
be_bytes-IsByte (suc k) n =
    All-append IsByte (be_bytes k (n / 256)) ((n % 256) ∷ []) (be_bytes-IsByte k (n / 256))
      (omega arith, tt)

from_be-snoc :
    (acc : ℕ) (xs : List ℕ) (b : ℕ) → from_be acc (xs ++ b ∷ []) ≡ from_be acc xs * 256 + b
unfolding from_be
from_be-snoc acc [] b = refl
from_be-snoc acc (x ∷ xs) b = from_be-snoc (acc * 256 + x) xs b

-- Reading never loses what is already there.
pub le-from_be : (acc : ℕ) (xs : List ℕ) → acc ≤ from_be acc xs
unfolding from_be
le-from_be acc [] = omega arith
le-from_be acc (x ∷ xs) = omega (arith, le-from_be (acc * 256 + x) xs)

pub from_be-be_bytes : (k n : ℕ) → n < 256 ^ k → from_be 0 (be_bytes k n) ≡ n
unfolding be_bytes
from_be-be_bytes zero n h = unfold from_be in omega arith
from_be-be_bytes (suc k) n h = omega (
  arith,
  from_be-snoc 0 (be_bytes k (n / 256)) (n % 256),
  from_be-be_bytes k (n / 256) (omega arith),
)

from_be_bound_reverse : (ys : List ℕ) → All IsByte ys → from_be 0 (reverse ys) < 256 ^ length ys
from_be_bound_reverse [] h = unfold from_be in omega arith
from_be_bound_reverse (y ∷ ys) h =
    rw (reverse-cons y ys, from_be-snoc 0 (reverse ys) y)
      (omega (arith, from_be_bound_reverse ys h.1, h.0, pow-suc 256 (length ys)))

be_bytes-from_be-reverse :
    (ys : List ℕ) → All IsByte ys → be_bytes (length ys) (from_be 0 (reverse ys)) ≡ reverse ys
unfolding be_bytes
be_bytes-from_be-reverse [] h = refl
be_bytes-from_be-reverse (y ∷ ys) h =
    let n = from_be 0 (reverse ys) in
    let quot : (n * 256 + y) / 256 ≡ n = omega (arith, h.0) in
    let rem : (n * 256 + y) % 256 ≡ y = omega (arith, h.0) in
    rw
      (reverse-cons y ys, from_be-snoc 0 (reverse ys) y, quot, rem, be_bytes-from_be-reverse ys h.1)

pub from_be_bound : (xs : List ℕ) → All IsByte xs → from_be 0 xs < 256 ^ length xs
from_be_bound xs h =
    rw (reverse-reverse, length-reverse) at
      (from_be_bound_reverse (reverse xs) (All-reverse IsByte xs h))

pub be_bytes-from_be : (xs : List ℕ) → All IsByte xs → be_bytes (length xs) (from_be 0 xs) ≡ xs
be_bytes-from_be xs h =
    rw (reverse-reverse, length-reverse) at
      (be_bytes-from_be-reverse (reverse xs) (All-reverse IsByte xs h))
