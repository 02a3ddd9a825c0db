-- ===== src/Codec/Inverse.antt =====
-- What a successful read took: the rules from which canonical decoders are shown to accept nothing
-- but what their encoders write.
use mesh_lab.Prelude.{
  ℕ, ◌+◌, ◌-◌, ◌≤◌, ◌≡◌, sym, ap, subst, ◌∙◌, not, List, [], ◌++◌, some, length, take, ltb, ◌==◌,
  ok, ◌>>=◌, ok_or, >>=-eq-ok, reject_inv, reject_then, ok_or-eq-ok, ok-subst, Bool-cases, inl, inr,
  append_assoc, take-append-drop, length-take, length-drop, drop-length, All, All-append_left,
  All-append_right, arith, length-append,
}
use mesh_lab.Durable.{Outcome, invalid_input, IsByte, IsU64, IsArray}
use mesh_lab.Codec.{
  Reader, head_bytes, value, uint, array, count, slice, checked_add, string, byte_string, fixed,
  end, new_reader,
}
use mesh_lab.Codec.Head.{remaining, advance, remaining-advance}
use mesh_lab.Codec.Canonical.{Reads, value_inv}
use mesh_lab.Codec.Decodes.{length-head_bytes_le}

pub Reads-then :
    (r r₁ r₂ : Reader) (xs ys : List ℕ) → Reads r r₁ xs → Reads r₁ r₂ ys → Reads r r₂ (xs ++ ys)
Reads-then r r₁ r₂ xs ys a b = record {
  taken = a.taken ∙ ap (◌++◌ xs) b.taken ∙ sym (append_assoc xs ys (remaining r₂));
  moved =
      b.moved ∙ ap (λ q. advance q (length ys)) a.moved ∙ rw (length-append xs ys) (ground arith);
}

-- The rest of a byte string is one.
pub Reads-bytes :
    (r r' : Reader) (xs : List ℕ)
    → Reads r r' xs
    → All IsByte (remaining r)
    → All IsByte xs × All IsByte (remaining r')
Reads-bytes r r' xs a bytes =
    let whole = subst (All IsByte) a.taken bytes in
    (
      All-append_left IsByte xs (remaining r') whole,
      All-append_right IsByte xs (remaining r') whole,
    )

pub uint_inv :
    (n : ℕ) (r r' : Reader)
    → All IsByte (remaining r)
    → uint r ≡ ok (n, r')
    → IsU64 n × Reads r r' (head_bytes 0 n)
unfolding uint
uint_inv n r r' bytes h = value_inv 0 n r r' bytes h

pub array_inv :
    (n : ℕ) (u : Unit {0}) (r r' : Reader)
    → All IsByte (remaining r)
    → array n r ≡ ok (u, r')
    → Reads r r' (head_bytes 4 n)
unfolding array
array_inv n u r r' bytes h =
    let ((m, r₁), got, more) = >>=-eq-ok (value 4 r) _ h in
    let (_, reads) = value_inv 4 m r r₁ bytes got in
    let same : m ≡ n = ground (arith, more) in
    let there : r₁ ≡ r' = ground (arith, more) in rw (← same, ← there) reads

pub count_inv :
    (limit n : ℕ) (r r' : Reader)
    → All IsByte (remaining r)
    → count limit r ≡ ok (n, r')
    → (n ≤ limit) × Reads r r' (head_bytes 4 n)
unfolding count
count_inv limit n r r' bytes h =
    let ((m, r₁), got, more) = >>=-eq-ok (value 4 r) _ h in
    let (_, reads) = value_inv 4 m r r₁ bytes got in
    let same : m ≡ n = ground (arith, more) in
    let there : r₁ ≡ r' = ground (arith, more) in
    let bound : m ≤ limit = ground (arith, more) in rw (← same, ← there) (bound, reads)

-- The bytes that a slice holds are the next ones.
slice_inv :
    (q : Reader) (n : ℕ) (b : List ℕ)
    → slice q.bytes q.pos (q.pos + n) ≡ some b
    → (length b ≡ n) × (remaining q ≡ b ++ remaining (advance q n))
slice_inv q n b h =
    let inside : q.pos + n ≤ length q.bytes = ground (arith, h) in
    let size : q.pos + n - q.pos ≡ n = omega arith in
    let got : b ≡ take n (remaining q) = rw (← size) (ground (arith, h)) in
    (
      rw got (omega (arith, length-take n (remaining q), length-drop q.pos q.bytes, inside)),
      rw (got, remaining-advance q n) (sym (take-append-drop n (remaining q))),
    )

pub string_inv :
    (major limit : ℕ) (b : List ℕ) (r r' : Reader)
    → All IsByte (remaining r)
    → string major limit r ≡ ok (b, r')
    → (length b ≤ limit) × All IsByte b × Reads r r' (head_bytes major (length b) ++ b)
unfolding string
string_inv major limit b r r' bytes h =
    let ((n, r₁), got, h₁) = >>=-eq-ok (value major r) _ h in
    let (_, lead) = value_inv major n r r₁ bytes got in
    let bound = reject_inv (ltb limit n) invalid_input _ h₁ in
    let h₂ = reject_then (ltb limit n) invalid_input _ h₁ in
    let (stop, added, h₃) = >>=-eq-ok (ok_or (checked_add r₁.pos n) invalid_input) _ h₂ in
    let end_at : stop ≡ r₁.pos + n =
      ground (arith, ok_or-eq-ok (checked_add r₁.pos n) invalid_input stop added) in
    let (c, cut, last) = >>=-eq-ok (ok_or (slice r₁.bytes r₁.pos stop) invalid_input) _ h₃ in
    let piece = ok_or-eq-ok (slice r₁.bytes r₁.pos stop) invalid_input c cut in
    let (sized, split) =
      slice_inv r₁ n c (subst (λ k. slice r₁.bytes r₁.pos k ≡ some c) end_at piece) in
    let here : Reads r₁ (advance r₁ n) c = record {
      taken = split;
      moved = ap (advance r₁) (sym sized);
    } in
    let (_, rest) = Reads-bytes r r₁ (head_bytes major n) lead bytes in
    let (those, _) = Reads-bytes r₁ (advance r₁ n) c here rest in
    let whole = Reads-then r r₁ (advance r₁ n) (head_bytes major n) c lead here in
    ok-subst
      (λ p.
        (length p.0 ≤ limit) × All IsByte p.0 × Reads r p.1 (head_bytes major (length p.0) ++ p.0))
      (c, record r₁ { pos = stop }) (b, r') last
      (
        ground (arith, sized, bound),
        those,
        subst (λ k. Reads r (record r₁ { pos = k }) (head_bytes major (length c) ++ c)) (sym end_at)
            (subst (λ k. Reads r (advance r₁ n) (head_bytes major k ++ c)) (sym sized) whole),
      )

pub byte_string_inv :
    (limit : ℕ) (b : List ℕ) (r r' : Reader)
    → All IsByte (remaining r)
    → byte_string limit r ≡ ok (b, r')
    → (length b ≤ limit) × All IsByte b × Reads r r' (head_bytes 2 (length b) ++ b)
unfolding byte_string
byte_string_inv limit b r r' bytes h = string_inv 2 limit b r r' bytes h

pub fixed_inv :
    (size : ℕ) (b : List ℕ) (r r' : Reader)
    → All IsByte (remaining r)
    → fixed size r ≡ ok (b, r')
    → IsArray size b × Reads r r' (head_bytes 2 (length b) ++ b)
unfolding fixed
fixed_inv size b r r' bytes h =
    let ((c, r₁), got, more) = >>=-eq-ok (byte_string size r) _ h in
    let (_, those, reads) = byte_string_inv size c r r₁ bytes got in
    let sized = reject_inv (not (length c == size)) invalid_input _ more in
    let last = reject_then (not (length c == size)) invalid_input _ more in
    ok-subst (λ p. IsArray size p.0 × Reads r p.1 (head_bytes 2 (length p.0) ++ p.0)) (c, r₁)
      (b, r') last (record { sized = ground (arith, sized); bytes = those }, reads)

pub end_inv : (r : Reader) (u : Unit {0}) → end r ≡ ok u → remaining r ≡ []
unfolding end
end_inv r u h =
    let there : r.pos ≡ length r.bytes = ground (arith, h) in rw there (drop-length r.bytes)

-- A byte string with its head.
abbrev pub blob : List ℕ → List ℕ
blob b = head_bytes 2 (length b) ++ b

-- `next` goes on behind a value that `p` read, `print` being what it was read from.
abbrev pub Onward {ℓ κ ι} :
    {A : Type ℓ} {C : Type ι}
    → (A → List ℕ)
    → (A → Type κ)
    → (A × Reader → Outcome C)
    → Reader
    → C
    → A
    → Reader
    → Type (κ ⊔ ι)
Onward print Fits next r c a r' =
    Fits a
    × (remaining r ≡ print a ++ remaining r')
    × All IsByte (remaining r')
    × (next (a, r') ≡ ok c)

module _ {ℓ κ ι} {A : Type ℓ} {C : Type ι} (p : Reader → Outcome (A × Reader)) (print : A → List ℕ)
    (Fits : A → Type κ)
    (inverse : (a : A) (r r' : Reader)
      → All IsByte (remaining r)
      → p r ≡ ok (a, r')
      → Fits a × Reads r r' (print a)) where
  -- A chain that succeeded went on behind its first read.
  pub then_of {γ} :
      {G : Type γ} (next : A × Reader → Outcome C) (r : Reader) (c : C)
      → All IsByte (remaining r)
      → (p r >>= next) ≡ ok c
      → ((a : A) (r' : Reader) → Onward print Fits next r c a r' → G)
      → G
  then_of next r c bytes h k =
      let ((a, r'), got, more) = >>=-eq-ok (p r) next h in
      let (fits, reads) = inverse a r r' bytes got in
      k a r' (fits, reads.taken, (Reads-bytes r r' (print a) reads bytes).1, more)

module _ {ι γ} {C : Type ι} {G : Type γ} where
  pub uint_then :
      (next : ℕ × Reader → Outcome C) (r : Reader) (c : C)
      → All IsByte (remaining r)
      → (uint r >>= next) ≡ ok c
      → ((n : ℕ) (r' : Reader) → Onward (head_bytes 0) IsU64 next r c n r' → G)
      → G
  uint_then = then_of uint (head_bytes 0) IsU64 uint_inv

  pub array_then :
      (n : ℕ) (next : Unit {0} × Reader → Outcome C) (r : Reader) (c : C)
      → All IsByte (remaining r)
      → (array n r >>= next) ≡ ok c
      → ((u : Unit {0}) (r' : Reader)
          → Onward (λ _. head_bytes 4 n) (λ _. Unit {0}) next r c u r'
          → G)
      → G
  array_then n =
      then_of (array n) (λ _. head_bytes 4 n) (λ _. Unit {0})
        (λ u r r' bytes h. (tt, array_inv n u r r' bytes h))

  pub count_then :
      (limit : ℕ) (next : ℕ × Reader → Outcome C) (r : Reader) (c : C)
      → All IsByte (remaining r)
      → (count limit r >>= next) ≡ ok c
      → ((n : ℕ) (r' : Reader) → Onward (head_bytes 4) (λ m. m ≤ limit) next r c n r' → G)
      → G
  count_then limit = then_of (count limit) (head_bytes 4) (λ n. n ≤ limit) (count_inv limit)

  pub fixed_then :
      (size : ℕ) (next : List ℕ × Reader → Outcome C) (r : Reader) (c : C)
      → All IsByte (remaining r)
      → (fixed size r >>= next) ≡ ok c
      → ((b : List ℕ) (r' : Reader) → Onward blob (IsArray size) next r c b r' → G)
      → G
  fixed_then size = then_of (fixed size) blob (IsArray size) (fixed_inv size)

  pub byte_string_then :
      (limit : ℕ) (next : List ℕ × Reader → Outcome C) (r : Reader) (c : C)
      → All IsByte (remaining r)
      → (byte_string limit r >>= next) ≡ ok c
      → ((b : List ℕ) (r' : Reader)
          → Onward blob (λ x. (length x ≤ limit) × All IsByte x) next r c b r'
          → G)
      → G
  byte_string_then limit =
      then_of (byte_string limit) blob (λ b. (length b ≤ limit) × All IsByte b)
        (λ b r r' bytes h.
          let (bound, those, reads) = byte_string_inv limit b r r' bytes h in
          ((bound, those), reads))

  pub end_then :
      (next : Unit {0} → Outcome C) (r : Reader) (c : C)
      → (end r >>= next) ≡ ok c
      → (remaining r ≡ [] → next tt ≡ ok c → G)
      → G
  end_then next r c h k =
      let (tt, ended, more) = >>=-eq-ok (end r) next h in k (end_inv r tt ended) more

  -- A reader on a whole byte string.
  pub new_reader_then :
      (bytes : List ℕ) (limit : ℕ) (next : Reader → Outcome C) (c : C)
      → (new_reader bytes limit >>= next) ≡ ok c
      → (length bytes ≤ limit → next (record { bytes = bytes; pos = 0 }) ≡ ok c → G)
      → G
  unfolding new_reader
  new_reader_then bytes limit next c h k = elim (Bool-cases (ltb limit (length bytes))) [
    | inl long ↦ absurd (ground (arith, h, long))
    | inr fits ↦ k (ground (arith, fits)) (ground (arith, h, fits))
  ]

-- How long what follows an item gets by it.
pub length-head_append :
    (major n : ℕ) (xs : List ℕ) → length (head_bytes major n ++ xs) ≤ 9 + length xs
length-head_append major n xs =
    omega (arith, length-append (head_bytes major n) xs, length-head_bytes_le major n)

pub length-blob_append : (b xs : List ℕ) → length (blob b ++ xs) ≤ 9 + length b + length xs
length-blob_append b xs = omega (
  arith,
  length-append (blob b) xs,
  length-append (head_bytes 2 (length b)) b,
  length-head_bytes_le 2 (length b),
)
