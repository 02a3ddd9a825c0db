-- ===== src/Bridge/Requests.antt =====
-- The request decoder reads heads as the canonical reader does, and accepts one encoding of each
-- command.
use mesh_lab.Prelude.{
  ℕ, zero, suc, ◌+◌, ◌*◌, ◌/◌, ◌%◌, ◌^◌, ◌≡◌, refl, inl, inr, bit_or, List, get_elem?, ltb, ok, err,
  ◌>>=◌, ◌>>◌, reject, ok_or, arith, Option-cases, Result-cases, bit_and-tag,
}
use native.Mathlib.Decide.{dec_lt}
use mesh_lab.Durable.{Outcome}
use mesh_lab.Codec.{Reader, argument_width, byte, read_be, long_value, value, uint}
use mesh_lab.Bridge.{Error, Result, invalid_argument, read_loop, read_uint}

-- The answer of a reader of `canonical`, as the bridge gives it: a number with the position after
-- it, and one error for all.
abbrev pub as_bridge : Outcome (ℕ × Reader) → Result Error (ℕ × ℕ)
as_bridge (ok (n, r)) = ok (n, r.pos)
as_bridge (err _) = err invalid_argument

abbrev pub at : List ℕ → ℕ → Reader
at bytes pos = record { bytes = bytes; pos = pos }

read_loop-read_be :
    (bytes : List ℕ) (n v pos : ℕ)
    → read_loop bytes n v pos ≡ as_bridge (read_be n v (at bytes pos))
unfolding read_loop read_be byte
read_loop-read_be bytes zero v pos = refl
read_loop-read_be bytes (suc n) v pos = elim (Option-cases (get_elem? bytes pos)) [
  | inl e ↦ rw e
  | inr (b, e) ↦ rw e (read_loop-read_be bytes n (bit_or (v * 256 % 2 ^ 64) b) (pos + 1))
]

long_value-read_loop :
    (bytes : List ℕ) (b pos : ℕ)
    → (do
      (n, least) ← ok_or (argument_width b) invalid_argument
      (v, p) ← read_loop bytes n 0 pos
      reject (ltb v least) invalid_argument
      ok (v, p))
      ≡ as_bridge (long_value b (at bytes pos))
unfolding long_value
long_value-read_loop bytes b pos = elim (Option-cases (argument_width b)) [
  | inl e ↦ rw e
  | inr ((n, least), e) ↦
      rw (e, read_loop-read_be bytes n 0 pos)
        (elim (Result-cases (read_be n 0 (at bytes pos))) [
          | inl ((v, r), got) ↦ rw got (ground arith)
          | inr (x, got) ↦ rw got
        ])
]

-- `read_uint` of the bridge answers what `uint` of the canonical reader answers.
pub read_uint-uint :
    (bytes : List ℕ) (pos : ℕ) → read_uint bytes pos ≡ as_bridge (uint (at bytes pos))
unfolding read_uint uint value byte
read_uint-uint bytes pos = elim (Option-cases (get_elem? bytes pos)) [
  | inl e ↦ rw e
  | inr (b, e) ↦ elim (dec_lt b 32) [
    | yes small ↦
        let high : b / 32 ≡ 0 = omega arith in
        let low : b % 32 ≡ b = omega arith in
        rw (e, bit_and-tag, high, low) (ground (arith, long_value-read_loop bytes b (pos + 1)))
    | no large ↦ rw e (ground arith)
  ]
]
