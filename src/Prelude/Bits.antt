-- ===== src/Prelude/Bits.antt =====
-- Bit operations on bytes and words, in plain arithmetic.
use Prim.Native.Nat.{
  ℕ, zero, suc, ◌+◌, ◌*◌, ◌/◌, ◌%◌, ◌^◌, ◌-◌, ◌≤◌, ◌<◌, min, max, digits, bit_and, bit_or,
  bit_and-bitwise, bit_or-bitwise,
}
use mathlib.Core.Path.{◌≡◌, refl, ap, ◌∙◌}
use native.Mathlib.Omega.{arith}

-- Both operations recur on binary digits, with more fuel than there are digits.
module _ (z : ℕ → ℕ) (f : ℕ → ℕ → ℕ) where
  -- One more unit of fuel changes nothing.
  digits-suc : (n a b : ℕ) → a ≤ n → digits z f (suc n) a b ≡ digits z f n a b
  digits-suc zero zero b h = refl
  digits-suc (suc n) zero b h = refl
  digits-suc zero (suc a) b h = absurd (omega arith)
  digits-suc (suc n) (suc a) b h =
      ap (λ d. d * 2 + f (suc a % 2) (b % 2)) (digits-suc n (suc a / 2) (b / 2) (omega arith))

  spare_fuel : (k n a b : ℕ) → n ≡ k + a → digits z f n a b ≡ digits z f a a b
  spare_fuel zero n a b e = let same : n ≡ a = omega arith in rw same
  spare_fuel (suc k) n a b e =
      let more : n ≡ suc (k + a) = omega arith in
      rw more (digits-suc (k + a) a b (omega arith) ∙ spare_fuel k (k + a) a b refl)

  lowest_digit :
      (a b : ℕ) → digits z f a (suc a / 2) (b / 2) ≡ digits z f (suc a / 2) (suc a / 2) (b / 2)
  lowest_digit a b = spare_fuel (a - suc a / 2) a (suc a / 2) (b / 2) (omega arith)

or_digits : (a b : ℕ) → bit_or (suc a) b ≡ bit_or (suc a / 2) (b / 2) * 2 + max (suc a % 2) (b % 2)
or_digits a b =
    simp bit_or-bitwise (ap (λ d. d * 2 + max (suc a % 2) (b % 2)) (lowest_digit (λ y. y) max a b))

and_digits :
    (a b : ℕ) → bit_and (suc a) b ≡ bit_and (suc a / 2) (b / 2) * 2 + min (suc a % 2) (b % 2)
and_digits a b =
    simp bit_and-bitwise (ap (λ d. d * 2 + min (suc a % 2) (b % 2)) (lowest_digit (λ y. 0) min a b))

pub bit_or-halves : (a b : ℕ) → bit_or a b ≡ bit_or (a / 2) (b / 2) * 2 + max (a % 2) (b % 2)
bit_or-halves zero b = simp bit_or-bitwise (omega arith)
bit_or-halves (suc a) b = or_digits a b

pub bit_and-halves : (a b : ℕ) → bit_and a b ≡ bit_and (a / 2) (b / 2) * 2 + min (a % 2) (b % 2)
bit_and-halves zero b = simp bit_and-bitwise (omega arith)
bit_and-halves (suc a) b = and_digits a b

-- Nothing joined or kept, by as many halvings as it takes.
no_bits : (k a : ℕ) → a < 2 ^ k → (bit_or a 0 ≡ a) × (bit_and a 0 ≡ 0)
no_bits zero a h = let none_left : a ≡ 0 = omega arith in rw none_left (refl, refl)
no_bits (suc k) a h =
    let (joined, kept) = no_bits k (a / 2) (omega arith) in
    (omega (arith, joined, bit_or-halves a 0), omega (arith, kept, bit_and-halves a 0))

below_power : (a : ℕ) → a < 2 ^ a
below_power zero = omega arith
below_power (suc a) = omega (arith, below_power a)

bit_or-zero : (a : ℕ) → bit_or a 0 ≡ a
bit_or-zero a = (no_bits a a (below_power a)).0

-- A low digit below an even number goes under it.
bit_or-even : (a b : ℕ) → b < 2 → bit_or (a * 2) b ≡ a * 2 + b
bit_or-even a b h = omega (arith, bit_or-halves (a * 2) b, bit_or-zero a, halves)
  where
    halves : bit_or (a * 2 / 2) (b / 2) ≡ bit_or a 0
    halves = let p : a * 2 / 2 ≡ a = omega arith in let q : b / 2 ≡ 0 = omega arith in rw (p, q)

-- Doubling the upper part: from a mask of k digits to one of k + 1.
bit_or-double :
    (a b m : ℕ) → bit_or (a * m) (b / 2) ≡ a * m + b / 2 → bit_or (a * (m * 2)) b ≡ a * (m * 2) + b
bit_or-double a b m h = omega (arith, bit_or-halves (a * (m * 2)) b, halves, h)
  where
    halves : bit_or (a * (m * 2) / 2) (b / 2) ≡ bit_or (a * m) (b / 2)
    halves = let p : a * (m * 2) / 2 ≡ a * m = omega arith in rw p

bit_or_32 : (a b : ℕ) → b < 32 → bit_or (a * 32) b ≡ a * 32 + b
bit_or_32 a b h = bit_or-double a b 16 (
    bit_or-double a (b / 2) 8 (
      bit_or-double a (b / 2 / 2) 4
        (bit_or-double a (b / 2 / 2 / 2) 2 (bit_or-even a (b / 2 / 2 / 2 / 2) (omega arith)))))

-- `(x << 8) | b` for a byte `b`.
pub bit_or-byte : (a b : ℕ) → b < 256 → bit_or (a * 256) b ≡ a * 256 + b
bit_or-byte a b h = bit_or-double a b 128 (
    bit_or-double a (b / 2) 64
      (bit_or-double a (b / 2 / 2) 32 (bit_or_32 a (b / 2 / 2 / 2) (omega arith))))

-- `(x << 5) | n` for `n` of five bits.
pub bit_or-tag : (a n : ℕ) → n < 32 → bit_or (a * 32) n ≡ a * 32 + n
bit_or-tag = bit_or_32

pub last_bit : (a : ℕ) → bit_and a 1 ≡ a % 2
last_bit a =
    let (_, rest) = no_bits (a / 2) (a / 2) (below_power (a / 2)) in
    omega (arith, bit_and-halves a 1, rest)

-- `b & 31`.
pub bit_and-tag : (a : ℕ) → bit_and a 31 ≡ a % 32
bit_and-tag a = omega (
  arith,
  bit_and-halves a 31,
  bit_and-halves (a / 2) 15,
  bit_and-halves (a / 2 / 2) 7,
  bit_and-halves (a / 2 / 2 / 2) 3,
  last_bit (a / 2 / 2 / 2 / 2),
)
