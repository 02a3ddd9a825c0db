-- ===== src/Codec/Canonical.antt =====
-- `Reader::value` accepts nothing but what `Writer::head` writes.
use native.Mathlib.Decide.{dec_lt}
use mathlib.Core.Path.{ap₂}
use mesh_lab.Prelude.{
  ℕ, ◌+◌, ◌*◌, ◌/◌, ◌%◌, ◌^◌, ◌≤◌, ◌<◌, ◌≡◌, sym, ap, subst, ◌∙◌, inl, inr, List, ◌∷◌, ◌++◌, some,
  length, ltb, ◌==◌, ok, >>=-eq-ok, ok_or-eq-ok, ok_or, All, All-append_left, arith, if◌then◌else◌,
  Bool-cases, ==_iff, lt→ltb, le→ltb,
}
use native.Mathlib.Nat.{pow-le-pow_right}
use mesh_lab.Durable.{Outcome, invalid_input, IsByte, IsU64}
use mesh_lab.Codec.{Reader, head_bytes, byte, argument_width, read_be, long_value, value}
use mesh_lab.Codec.Words.{be_bytes, from_be, from_be_bound, be_bytes-from_be}
use mesh_lab.Codec.Head.{
  remaining, advance, byte_inv, read_be-append, read_be_takes, value-byte, head_short, head_wide,
  argument_width_bounds,
}

-- A successful read consumed some bytes, which it decides.
pub record Reads (r r' : Reader) (xs : List ℕ) : Type 0 where
  pub taken : remaining r ≡ xs ++ remaining r'
  pub moved : r' ≡ advance r (length xs)

value-byte_inv :
    (major n : ℕ) (r r' : Reader)
    → value major r ≡ ok (n, r')
    → (t : ℕ) × (t < 32) × (remaining r ≡ (major * 32 + t) ∷ remaining (advance r 1))
unfolding value
value-byte_inv major n r r' h =
    let ((b, r₁), got, more) = >>=-eq-ok (byte r) _ h in
    let (moved, split) = byte_inv r r₁ b got in
    let high : b / 32 ≡ major = elim (Bool-cases (b / 32 == major)) [
      | inl e ↦ (==_iff (b / 32) major).0 e
      | inr e ↦ ground (arith, more, e)
    ] in
    let whole : major * 32 + b % 32 ≡ b = omega arith in
    (b % 32, omega arith, split ∙ rw (whole, moved))

word_fits : (w n : ℕ) → w ≤ 8 → n < 256 ^ w → n < 2 ^ 64
word_fits w n small h = omega (arith, pow-le-pow_right {n = 256} (omega arith) small)

read_be_inv :
    (w v : ℕ) (r r' : Reader)
    → w ≤ 8
    → All IsByte (remaining r)
    → read_be w 0 r ≡ ok (v, r')
    → (v < 256 ^ w) × Reads r r' (be_bytes w v)
read_be_inv w v r r' small bytes h =
    let (xs, sized, split) = read_be_takes w 0 v r r' h in
    let those : All IsByte xs =
      All-append_left IsByte xs (remaining r') (subst (All IsByte) split bytes) in
    let bound = from_be_bound xs those in
    let word : from_be 0 xs < 2 ^ 64 = word_fits (length xs) _ (omega arith) bound in
    let run = read_be-append xs (remaining r') 0 r those word split in
    let again : ok (v, r') ≡ ok (from_be 0 xs, advance r (length xs)) =
      sym h ∙ ap (λ k. read_be k 0 r) (sym sized) ∙ run in
    let same : v ≡ from_be 0 xs = ground (arith, again) in
    let moved : r' ≡ advance r (length xs) = ground (arith, again) in
    let written : be_bytes w v ≡ xs = ap₂ be_bytes (sym sized) same ∙ be_bytes-from_be xs those in
    (rw (same, ← sized) bound, rw written (record { taken = split; moved = moved }))

long_value_inv :
    (tag n : ℕ) (r r' : Reader)
    → All IsByte (remaining r)
    → long_value tag r ≡ ok (n, r')
    → (w least : ℕ) × (argument_width tag ≡ some (w, least))
      × (least ≤ n)
      × (n < 256 ^ w)
      × Reads r r' (be_bytes w n)
unfolding long_value
long_value_inv tag n r r' bytes h =
    let ((w, least), known, more) = >>=-eq-ok (ok_or (argument_width tag) invalid_input) _ h in
    let width = ok_or-eq-ok (argument_width tag) invalid_input (w, least) known in
    let ((v, r₂), got, rest) = >>=-eq-ok (read_be w 0 r) _ more in
    let (_, _, small, _) = argument_width_bounds tag w least width in
    let (bound, reads) = read_be_inv w v r r₂ small bytes got in
    let kept : (least ≤ v) × (n ≡ v) × (r' ≡ r₂) =
      (ground (arith, rest), ground (arith, rest), ground (arith, rest)) in
    rw (kept.1, kept.2) (w, least, width, kept.0, bound, reads)

short_inv :
    (major n t : ℕ) (r r' : Reader)
    → major < 8
    → t < 24
    → remaining r ≡ (major * 32 + t) ∷ remaining (advance r 1)
    → ◌≡◌ {A = Outcome (ℕ × Reader)} (ok (n, r')) (ok (t, advance r 1))
    → IsU64 n × Reads r r' (head_bytes major n)
short_inv major n t r r' hm small split h =
    let same : n ≡ t = ground (arith, h) in
    let moved : r' ≡ advance r 1 = ground (arith, h) in
    rw (same, head_short major t hm small)
      (omega arith, record { taken = rw moved split; moved = moved })

wide_inv :
    (major n t : ℕ) (r r' : Reader)
    → major < 8
    → remaining r ≡ (major * 32 + t) ∷ remaining (advance r 1)
    → All IsByte (remaining (advance r 1))
    → long_value t (advance r 1) ≡ ok (n, r')
    → IsU64 n × Reads r r' (head_bytes major n)
wide_inv major n t r r' hm split bytes h =
    let (w, least, width, lo, hi, reads) = long_value_inv t n (advance r 1) r' bytes h in
    let (_, _, small, _) = argument_width_bounds t w least width in
    rw (head_wide major n hm t w least width lo hi) (
      word_fits w n small hi,
      record {
        taken = split ∙ ap (◌∷◌ (major * 32 + t)) reads.taken;
        moved = reads.moved ∙ ground arith;
      },
    )

-- An argument that `value` accepts is a 64-bit word, and the bytes it took are exactly those that
-- `head` writes for that major type and argument.
pub value_inv :
    (major n : ℕ) (r r' : Reader)
    → All IsByte (remaining r)
    → value major r ≡ ok (n, r')
    → IsU64 n × Reads r r' (head_bytes major n)
value_inv major n r r' bytes h =
    let (t, five, split) = value-byte_inv major n r r' h in
    let r₁ = advance r 1 in
    let those : All IsByte ((major * 32 + t) ∷ remaining r₁) = subst (All IsByte) split bytes in
    let tail : ◌≡◌ {A = Outcome (ℕ × Reader)} (ok (n, r'))
        (if ltb t 24 then ok (t, r₁) else long_value t r₁) =
      sym h ∙ value-byte major t r (remaining r₁) five split in
    elim (dec_lt t 24) [
      | yes small ↦
          short_inv major n t r r' (omega (arith, those.0)) small split
            (tail ∙ rw (lt→ltb t 24 small))
      | no large ↦
          wide_inv major n t r r' (omega (arith, those.0)) split those.1
            (sym (tail ∙ rw (le→ltb t 24 (omega arith))))
    ]
