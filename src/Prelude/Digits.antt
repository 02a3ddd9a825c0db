-- ===== src/Prelude/Digits.antt =====
-- The binary digits of a word, under the operations that set, test and shift them.
use Prim.Native.Nat.{ℕ, zero, suc, ◌+◌, ◌*◌, ◌/◌, ◌%◌, ◌^◌, ◌-◌, ◌<◌, max, bit_and, bit_or}
use mathlib.Core.Path.{◌≡◌, refl, ap, ◌∙◌}
use native.Mathlib.Omega.{arith}
use native.Mathlib.Nat.{pow-suc, div-add-mod', mod-lt, mod-eq_of_lt, mul-add-mod_self_right}
use mesh_lab.Prelude.Tests.{ltb, ◌==◌, if◌then◌else◌}
use mesh_lab.Prelude.Bits.{bit_or-halves, bit_and-halves, last_bit}

abbrev pub digit : ℕ → ℕ → ℕ
digit zero x = x % 2
digit (suc i) x = digit i (x / 2)

pub digit-zero : (i : ℕ) → digit i 0 ≡ 0
digit-zero zero = refl
digit-zero (suc i) = digit-zero i

pub digit_bound : (i x : ℕ) → digit i x < 2
digit_bound zero x = omega arith
digit_bound (suc i) x = digit_bound i (x / 2)

pub digit-bit_or : (i a b : ℕ) → digit i (bit_or a b) ≡ max (digit i a) (digit i b)
digit-bit_or zero a b = omega (arith, bit_or-halves a b)
digit-bit_or (suc i) a b =
    let half : bit_or a b / 2 ≡ bit_or (a / 2) (b / 2) = omega (arith, bit_or-halves a b) in
    rw half (digit-bit_or i (a / 2) (b / 2))

two_power : (k : ℕ) → 2 ^ suc k ≡ 2 ^ k * 2
two_power k = omega (arith, pow-suc 2 k)

pub two_power_pos : (k : ℕ) → 0 < 2 ^ k
two_power_pos zero = omega arith
two_power_pos (suc k) = omega (arith, two_power k, two_power_pos k)

pub bit_and-power : (d x : ℕ) → bit_and x (2 ^ d) ≡ digit d x * 2 ^ d
bit_and-power zero x = omega (arith, last_bit x)
bit_and-power (suc d) x =
    let half : 2 ^ suc d / 2 ≡ 2 ^ d = omega (arith, two_power d) in
    omega (
      arith,
      two_power d,
      bit_and-halves x (2 ^ suc d),
      ap (bit_and (x / 2)) half,
      bit_and-power d (x / 2),
      ap (λ (p : ℕ). digit d (x / 2) * p) (two_power d),
    )

pub digit-power : (i d : ℕ) → digit i (2 ^ d) ≡ (if i == d then 1 else 0)
digit-power zero zero = refl
digit-power zero (suc d) = ground (arith, two_power d)
digit-power (suc i) zero = ground (arith, digit-zero i)
digit-power (suc i) (suc d) =
    let half : 2 ^ suc d / 2 ≡ 2 ^ d = omega (arith, two_power d) in
    rw half (ground (arith, digit-power i d))

pub digit-mul : (i k x : ℕ) → digit i (x * 2 ^ k) ≡ (if ltb i k then 0 else digit (i - k) x)
digit-mul i zero x = let same : x * 2 ^ 0 ≡ x = omega arith in rw same (ground arith)
digit-mul zero (suc k) x = ground (arith, ap (λ (p : ℕ). x * p) (two_power k))
digit-mul (suc i) (suc k) x =
    let half : x * 2 ^ suc k / 2 ≡ x * 2 ^ k = omega (arith, ap (λ (p : ℕ). x * p) (two_power k)) in
    rw half (ground (arith, digit-mul i k x))

-- The word without its lowest digit, cut to one place less.
half-mod : (p x : ℕ) → 0 < p → x % (p * 2) / 2 ≡ x / 2 % p
half-mod p x pos =
    let q = x / (p * 2) in
    let r = x % (p * 2) in
    let whole : q * (p * 2) + r ≡ x = div-add-mod' x (p * 2) in
    let small : r < p * 2 = mod-lt x (omega arith) in
    let half : x / 2 ≡ q * p + r / 2 = omega (arith, whole) in
    rw (half, mul-add-mod_self_right q p (r / 2))
      (omega (arith, mod-eq_of_lt {n = r / 2} {m = p} (omega (arith, small))))

low-mod : (p x : ℕ) → x % (p * 2) % 2 ≡ x % 2
low-mod p x = omega (arith, div-add-mod' x (p * 2))

-- A word of `w` digits has no others.
pub digit-mod : (i w x : ℕ) → digit i (x % 2 ^ w) ≡ (if ltb i w then digit i x else 0)
digit-mod i zero x =
    let none_left : x % 2 ^ 0 ≡ 0 = omega arith in rw none_left (ground (arith, digit-zero i))
digit-mod zero (suc w) x = ground (arith, low-mod (2 ^ w) x, ap (λ (p : ℕ). x % p) (two_power w))
digit-mod (suc i) (suc w) x =
    let half : x % 2 ^ suc w / 2 ≡ x / 2 % 2 ^ w =
      ap (λ p. x % p / 2) (two_power w) ∙ half-mod (2 ^ w) x (two_power_pos w) in
    rw half (ground (arith, digit-mod i w (x / 2)))
