-- ===== src/Codec/Head.antt =====
-- `Reader::value` and `Writer::head` are inverse to one another, in both directions.
use mesh_lab.Prelude.{
  ℕ, zero, suc, ◌+◌, ◌*◌, ◌/◌, ◌%◌, ◌^◌, ◌≤◌, ◌<◌, ◌≡◌, refl, sym, ap, ◌∙◌, ◌⊎◌, inl, inr,
  bit_or-byte, bit_or-tag, bit_and-tag, List, [], ◌∷◌, ◌++◌, some, length, drop, drop-drop,
  drop-length_append, get_elem?-drop, ltb, if◌then◌else◌, ok, err, >>=-eq-ok, All, arith, le→ltb,
  ==_iff, List-cases, lt→ltb,
}
use native.Mathlib.Decide.{dec_lt}
use mesh_lab.Durable.{invalid_input, IsByte, IsU64}
use mesh_lab.Codec.{Reader, head_bytes, byte, argument_width, read_be, long_value, value}
use mesh_lab.Codec.Words.{
  be_bytes, from_be, length-be_bytes, be_bytes-IsByte, le-from_be, from_be-be_bytes,
}

-- What is still to be read.
abbrev pub remaining : Reader → List ℕ
remaining r = drop r.pos r.bytes

abbrev pub advance : Reader → ℕ → Reader
advance r n = record r { pos = r.pos + n }

pub remaining-advance : (r : Reader) (n : ℕ) → remaining (advance r n) ≡ drop n (remaining r)
remaining-advance r n = sym (drop-drop r.pos n r.bytes)

pub remaining-advance_append :
    (r : Reader) (xs ys : List ℕ) → remaining r ≡ xs ++ ys → remaining (advance r (length xs)) ≡ ys
remaining-advance_append r xs ys h =
    remaining-advance r (length xs) ∙ ap (drop (length xs)) h ∙ drop-length_append xs ys

pub advance-advance : (r : Reader) (m n : ℕ) → advance (advance r m) n ≡ advance r (m + n)
advance-advance r m n = ground arith

pub byte-cons :
    (r : Reader) (b : ℕ) (rest : List ℕ) → remaining r ≡ b ∷ rest → byte r ≡ ok (b, advance r 1)
unfolding byte
byte-cons r b rest h = rw (get_elem?-drop r.pos r.bytes, h)

byte-nil : (r : Reader) → remaining r ≡ [] → byte r ≡ err invalid_input
unfolding byte
byte-nil r h = rw (get_elem?-drop r.pos r.bytes, h)

-- A byte that was read is the next one of the input.
pub byte_inv :
    (r r' : Reader) (b : ℕ)
    → byte r ≡ ok (b, r')
    → (r' ≡ advance r 1) × (remaining r ≡ b ∷ remaining r')
byte_inv r r' b h = elim (List-cases (remaining r)) [
  | inl e ↦ cc (h, byte-nil r e)
  | inr (x, rest, e) ↦
      ground (arith, h, byte-cons r x rest e, remaining-advance_append r (x ∷ []) rest e)
]

pub read_be-append :
    (xs rest : List ℕ) (acc : ℕ) (r : Reader)
    → All IsByte xs
    → from_be acc xs < 2 ^ 64
    → remaining r ≡ xs ++ rest
    → read_be (length xs) acc r ≡ ok (from_be acc xs, advance r (length xs))
unfolding read_be from_be
read_be-append [] rest acc r b fits h = ground arith
read_be-append (x ∷ xs) rest acc r b fits h =
    let whole : acc * 256 % 2 ^ 64 ≡ acc * 256 = omega (arith, le-from_be (acc * 256 + x) xs) in
    rw (byte-cons r x (xs ++ rest) h, whole, bit_or-byte acc x b.0)
      (read_be-append xs rest (acc * 256 + x) (advance r 1) b.1 fits
          (remaining-advance_append r (x ∷ []) (xs ++ rest) h)
        ∙ ground arith)

pub read_be_takes :
    (n acc v : ℕ) (r r' : Reader)
    → read_be n acc r ≡ ok (v, r')
    → (xs : List ℕ) × (length xs ≡ n) × (remaining r ≡ xs ++ remaining r')
unfolding read_be
read_be_takes zero acc v r r' h = ([], refl, ground arith)
read_be_takes (suc n) acc v r r' h =
    let ((b, r₁), got, more) = >>=-eq-ok (byte r) _ h in
    let (_, e) = byte_inv r r₁ b got in
    let (xs, sized, split) = read_be_takes n _ v r₁ r' more in
    (b ∷ xs, omega arith, e ∙ ap (◌∷◌ b) split)

module _ (major n : ℕ) (major_ok : major < 8) where
  -- A small argument shares the first byte with the major type.
  pub head_short : n < 24 → head_bytes major n ≡ (major * 32 + n) ∷ []
  unfolding head_bytes
  head_short h =
      let tag : major * 32 % 256 ≡ major * 32 = omega arith in
      let low : n % 256 ≡ n = omega arith in
      rw (lt→ltb n 24 h, tag, low, bit_or-tag major n (omega arith))

  -- A larger one follows in the shortest width that holds it.
  pub head_wide :
      (tag w least : ℕ)
      → argument_width tag ≡ some (w, least)
      → least ≤ n
      → n < 256 ^ w
      → head_bytes major n ≡ (major * 32 + tag) ∷ be_bytes w n
  unfolding head_bytes be_bytes
  head_wide tag w least e lo hi =
      ground
        (arith, bit_or-tag major 24, bit_or-tag major 25, bit_or-tag major 26, bit_or-tag major 27)

-- The five ranges of an argument.
argument_cases :
    (n : ℕ)
    → IsU64 n
    → (n < 24)
      ⊎ ((tag w least : ℕ) × (argument_width tag ≡ some (w, least)) × (least ≤ n) × (n < 256 ^ w))
argument_cases n h = elim (dec_lt n 24) [
  | yes small ↦ inl small
  | no q₁ ↦ elim (dec_lt n 256) [
    | yes p ↦ inr (24, 1, 24, refl, omega arith, omega arith)
    | no q₂ ↦ elim (dec_lt n 65536) [
      | yes p ↦ inr (25, 2, 256, refl, omega arith, omega arith)
      | no q₃ ↦ elim (dec_lt n 4294967296) [
        | yes p ↦ inr (26, 4, 65536, refl, omega arith, omega arith)
        | no q₄ ↦ inr (27, 8, 4294967296, refl, omega arith, omega arith)
      ]
    ]
  ]
]

pub argument_width_bounds :
    (tag w least : ℕ)
    → argument_width tag ≡ some (w, least)
    → (24 ≤ tag) × (tag < 28) × (w ≤ 8) × (24 ≤ least)
argument_width_bounds tag w least e = ground arith

-- What `value` does with the tag bits of the first byte.
pub value-byte :
    (major t : ℕ) (r : Reader) (rest : List ℕ)
    → t < 32
    → remaining r ≡ (major * 32 + t) ∷ rest
    → value major r ≡ (if ltb t 24 then ok (t, advance r 1) else long_value t (advance r 1))
unfolding value
value-byte major t r rest h e =
    let low : (major * 32 + t) % 32 ≡ t = omega arith in
    let high : (major * 32 + t) / 32 ≡ major = omega arith in
    rw (byte-cons r (major * 32 + t) rest e, bit_and-tag, low, high)
      (ground (arith, ==_iff major major))

long_value-be_bytes :
    (tag w least n : ℕ) (r : Reader) (rest : List ℕ)
    → argument_width tag ≡ some (w, least)
    → least ≤ n
    → n < 256 ^ w
    → IsU64 n
    → remaining r ≡ be_bytes w n ++ rest
    → long_value tag r ≡ ok (n, advance r w)
unfolding long_value
long_value-be_bytes tag w least n r rest e lo hi fits h =
    let back : from_be 0 (be_bytes w n) ≡ n = from_be-be_bytes w n hi in
    let run =
      read_be-append (be_bytes w n) rest 0 r (be_bytes-IsByte w n) (omega (arith, back, fits)) h in
    let read : read_be w 0 r ≡ ok (n, advance r w) = rw (length-be_bytes w n, back) at run in
    rw (e, read, le→ltb n least lo)

-- `value` reads back the argument that `head` wrote, and stops right behind it.
pub value-head :
    (major n : ℕ) (r : Reader) (rest : List ℕ)
    → major < 8
    → IsU64 n
    → remaining r ≡ head_bytes major n ++ rest
    → value major r ≡ ok (n, advance r (length (head_bytes major n)))
value-head major n r rest hm fits h = elim (argument_cases n fits) [
  | inl small ↦
      let shape = head_short major n hm small in
      let first : remaining r ≡ (major * 32 + n) ∷ rest = h ∙ ap (λ b. b ++ rest) shape in
      rw (shape, value-byte major n r rest (omega arith) first, lt→ltb n 24 small)
  | inr (tag, w, least, e, lo, hi) ↦
      let shape = head_wide major n hm tag w least e lo hi in
      let bounds = argument_width_bounds tag w least e in
      let words = be_bytes w n in
      let first : remaining r ≡ (major * 32 + tag) ∷ (words ++ rest) =
        h ∙ ap (λ b. b ++ rest) shape in
      let next = remaining-advance_append r ((major * 32 + tag) ∷ []) (words ++ rest) first in
      rw
        (
          shape,
          value-byte major tag r (words ++ rest) (omega arith) first,
          le→ltb tag 24 bounds.0,
          length-be_bytes w n,
        )
        (long_value-be_bytes tag w least n (advance r 1) rest e lo hi fits next ∙ ground arith)
]

-- What is left to read, and hence the reader, after a head.
pub remaining-value-head :
    (major n : ℕ) (r : Reader) (rest : List ℕ)
    → remaining r ≡ head_bytes major n ++ rest
    → remaining (advance r (length (head_bytes major n))) ≡ rest
remaining-value-head major n r rest h = remaining-advance_append r (head_bytes major n) rest h

pub length-head_bytes_le : (major n : ℕ) → length (head_bytes major n) ≤ 9
unfolding head_bytes be_bytes
length-head_bytes_le major n = ground arith
