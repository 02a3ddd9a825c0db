-- ===== src/Codec/Decodes.antt =====
-- Reading back what was written, item by item: the rules from which the decoders of whole records
-- are proved.
use mesh_lab.Prelude.{
  ℕ, ◌+◌, ◌-◌, ◌%◌, ◌^◌, ◌≤◌, ◌<◌, ◌≡◌, refl, ap, ◌∙◌, true, List, [], ◌++◌, length, length-append,
  length-drop, drop, take, some, take-length_append, ltb, ok, ◌>>=◌, arith, append_assoc, le→ltb,
  lt→ltb, ==_iff,
}
use mesh_lab.Durable.{Outcome, IsU64}
use mesh_lab.Codec.{
  Reader, head_bytes, value, uint, array, count, slice, string, byte_string, text, fixed, end,
}
use mesh_lab.Codec.Words.{length-be_bytes}
use mesh_lab.Codec.Utf8.{is_utf8}
use mesh_lab.Codec.Head.{remaining, advance, value-head, remaining-advance_append}

-- In every slice of addressable length that goes on with `item`, the reader `p` answers `a` and
-- stops right behind `item`.
pub record Decodes {ℓ} {A : Type ℓ} (p : Reader → Outcome (A × Reader)) (item : List ℕ) (a : A)
    : Type ℓ where
  pub reads :
      (r : Reader) (rest : List ℕ)
      → IsU64 (length r.bytes)
      → remaining r ≡ item ++ rest
      → p r ≡ ok (a, advance r (length item))

module _ {ℓ κ} {A : Type ℓ} {B : Type κ} where
  -- One read after another.
  pub Decodes-bind :
      (p : Reader → Outcome (A × Reader)) (q : A → Reader → Outcome (B × Reader)) (xs ys : List ℕ)
      (a : A) (b : B)
      → Decodes p xs a
      → Decodes (q a) ys b
      → Decodes (λ r. p r >>= λ t. q t.0 t.1) (xs ++ ys) b
  Decodes-bind p q xs ys a b hp hq = record {
    reads = λ r rest fits h.
        let split : remaining r ≡ xs ++ (ys ++ rest) = h ∙ append_assoc xs ys rest in
        let next = remaining-advance_append r xs (ys ++ rest) split in
        rw
          (
            hp.reads r (ys ++ rest) fits split,
            hq.reads (advance r (length xs)) rest fits next,
            length-append xs ys,
          )
          (ground arith);
  }

module _ {ℓ} {A : Type ℓ} where
  pub Decodes-pure : (a : A) → Decodes (λ r. ok (a, r)) [] a
  Decodes-pure a = record { reads = λ r rest fits h. ground arith }

pub value-Decodes :
    (major n : ℕ) → major < 8 → IsU64 n → Decodes (value major) (head_bytes major n) n
value-Decodes major n hm hn = record { reads = λ r rest fits h. value-head major n r rest hm hn h }

pub uint-Decodes : (n : ℕ) → IsU64 n → Decodes uint (head_bytes 0 n) n
unfolding uint
uint-Decodes n hn = record { reads = λ r rest fits h. value-head 0 n r rest (omega arith) hn h }

length-head_bytes : (major n : ℕ) → 1 ≤ length (head_bytes major n)
unfolding head_bytes
length-head_bytes major n = ground arith

slice-remaining :
    (q : Reader) (b rest : List ℕ)
    → remaining q ≡ b ++ rest
    → q.pos + length b ≤ length q.bytes
    → slice q.bytes q.pos (q.pos + length b) ≡ some b
slice-remaining q b rest h fits =
    let long : q.pos + length b - q.pos ≡ length b = omega arith in
    let here : take (q.pos + length b - q.pos) (drop q.pos q.bytes) ≡ b =
      rw (long, h) (take-length_append b rest) in
    ground (arith, here)

-- Reading `item` from a slice leaves the position within it.
read_within :
    (r : Reader) (item rest : List ℕ)
    → remaining r ≡ item ++ rest
    → 1 ≤ length item
    → r.pos + length item ≤ length r.bytes
read_within r item rest h some_byte =
    omega (arith, ap length h, length-append item rest, length-drop r.pos r.bytes)

string-Decodes :
    (major limit : ℕ) (b : List ℕ)
    → major < 8
    → length b ≤ limit
    → Decodes (string major limit) (head_bytes major (length b) ++ b) b
unfolding string
string-Decodes major limit b hm hb = record {
  reads = λ r rest fits h.
      let lead = head_bytes major (length b) in
      let n = length lead in
      let positive = length-head_bytes major (length b) in
      let whole = length-append lead b in
      let inside = read_within r (lead ++ b) rest h (omega (arith, whole, positive)) in
      let split : remaining r ≡ lead ++ (b ++ rest) = h ∙ append_assoc lead b rest in
      let next = remaining-advance_append r lead (b ++ rest) split in
      let got =
        value-head major (length b) r (b ++ rest) hm (omega (arith, whole, inside, fits)) split in
      let fill = slice-remaining (advance r n) b rest next (omega (arith, whole, inside)) in
      let room : ltb (r.pos + n + length b) (2 ^ 64) ≡ true =
        lt→ltb _ _ (omega (arith, whole, inside, fits)) in
      rw (got, le→ltb limit (length b) hb, room, fill, whole) (ground arith);
}

pub byte_string-Decodes :
    (limit : ℕ) (b : List ℕ)
    → length b ≤ limit
    → Decodes (byte_string limit) (head_bytes 2 (length b) ++ b) b
unfolding byte_string
byte_string-Decodes limit b hb = string-Decodes 2 limit b (omega arith) hb

pub text-Decodes :
    (limit : ℕ) (b : List ℕ)
    → length b ≤ limit
    → is_utf8 b ≡ true
    → Decodes (text limit) (head_bytes 3 (length b) ++ b) b
unfolding text
text-Decodes limit b hb valid = record {
  reads =
      λ r rest fits h. rw ((string-Decodes 3 limit b (omega arith) hb).reads r rest fits h, valid);
}

pub fixed-Decodes :
    (size : ℕ) (b : List ℕ)
    → length b ≡ size
    → Decodes (fixed size) (head_bytes 2 (length b) ++ b) b
unfolding fixed
fixed-Decodes size b hb = record {
  reads = λ r rest fits h. rw (
    (byte_string-Decodes size b (omega arith)).reads r rest fits h,
    (==_iff (length b) size).1 hb,
  );
}

pub count-Decodes : (limit n : ℕ) → n ≤ limit → IsU64 n → Decodes (count limit) (head_bytes 4 n) n
unfolding count
count-Decodes limit n hn fits = record {
  reads = λ r rest big h. rw (value-head 4 n r rest (omega arith) fits h, le→ltb limit n hn);
}

pub array-Decodes : (n : ℕ) → IsU64 n → Decodes (array n) (head_bytes 4 n) tt
unfolding array
array-Decodes n fits = record {
  reads = λ r rest big h. rw (value-head 4 n r rest (omega arith) fits h, (==_iff n n).1 refl);
}

-- A step that reads nothing.
module _ {ℓ κ} {A : Type ℓ} {B : Type κ} where
  pub Decodes-lift :
      (m : Outcome A) (q : A → Reader → Outcome (B × Reader)) (ys : List ℕ) (a : A) (b : B)
      → m ≡ ok a
      → Decodes (q a) ys b
      → Decodes (λ r. m >>= λ t. q t r) ys b
  Decodes-lift m q ys a b e hq = record { reads = λ r rest fits h. rw e (hq.reads r rest fits h) }

-- The reader stands before `xs`, the rest of its bytes.
pub record At (r : Reader) (xs : List ℕ) : Type 0 where
  pub ahead : remaining r ≡ xs
  pub whole : r.pos + length xs ≡ length r.bytes
  pub fits : IsU64 (length r.bytes)

pub At-start :
    (bytes : List ℕ) → IsU64 (length bytes) → At (record { bytes = bytes; pos = 0 }) bytes
At-start bytes fits = record { ahead = refl; whole = omega arith; fits = fits }

module _ {ℓ} {A : Type ℓ} where
  -- Reading an item leaves the reader before what follows it.
  pub At-then {γ} :
      {G : Type γ} {p : Reader → Outcome (A × Reader)} {item : List ℕ} {a : A} (r : Reader)
      (rest : List ℕ)
      → Decodes p item a
      → At r (item ++ rest)
      → ((r' : Reader) → p r ≡ ok (a, r') → At r' rest → G)
      → G
  At-then {G} {p} {item} {a} r rest d at k =
      k (advance r (length item)) (d.reads r rest at.fits at.ahead) (record {
        ahead = remaining-advance_append r item rest at.ahead;
        whole = omega (arith, at.whole, length-append item rest);
        fits = at.fits;
      })

pub At-end : (r : Reader) → At r [] → end r ≡ ok tt
unfolding end
At-end r at = ground (arith, at.whole)

pub length-head_bytes_le : (major n : ℕ) → length (head_bytes major n) ≤ 9
unfolding head_bytes
length-head_bytes_le major n =
    ground
      (arith, length-be_bytes 2 (n % 2 ^ 16), length-be_bytes 4 (n % 2 ^ 32), length-be_bytes 8 n)
