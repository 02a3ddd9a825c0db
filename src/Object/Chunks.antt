-- ===== src/Object/Chunks.antt =====
-- A prepared object's chunks are its content, and pass the check of its manifest.
use mesh_lab.Prelude.{
  ℕ, zero, suc, ◌+◌, ◌-◌, ◌*◌, ◌≤◌, ◌<◌, ◌≡◌, refl, sym, ap, ◌∙◌, inl, inr, false, ◌||◌, List, [],
  ◌∷◌, ◌++◌, some, map, length, get_or, get_elem?, take, drop, ltb, ◌==◌, if◌then◌else◌, ok,
  reject_then, >>=-eq-ok, arith, take-append-drop, length-take, length-drop, length-map, min,
  Bool-cases,
}
use mesh_lab.Prelude.Ord.{bytes_ord, cmp_self}
use mesh_lab.Durable.{Outcome, MemberId, invalid_input, max_object_bytes}
use mesh_lab.Object.{
  Manifest, ObjectPolicy, PreparedObject, chunks_for, validate, cut, from_opaque, expected_length,
  verify_chunk,
}

abbrev pub joined : List (List ℕ) → List ℕ
joined [] = []
joined (xs ∷ xss) = xs ++ joined xss

joined-cut : (steps : ℕ) (xs : List ℕ) → length xs ≤ steps → joined (cut steps xs) ≡ xs
unfolding cut
joined-cut zero [] h = refl
joined-cut zero (x ∷ xs) h = absurd (omega arith)
joined-cut (suc steps) [] h = refl
joined-cut (suc steps) (x ∷ xs) h =
    rw (joined-cut steps (drop 1024 (x ∷ xs)) (omega (arith, length-drop 1024 (x ∷ xs))))
      (take-append-drop 1024 (x ∷ xs))

length-cut :
    (steps : ℕ) (xs : List ℕ) → length xs ≤ steps → length (cut steps xs) ≡ chunks_for (length xs)
unfolding cut
length-cut zero [] h = refl
length-cut zero (x ∷ xs) h = absurd (omega arith)
length-cut (suc steps) [] h = refl
length-cut (suc steps) (x ∷ xs) h =
    let left = length-drop 1024 (x ∷ xs) in
    omega (arith, length-cut steps (drop 1024 (x ∷ xs)) (omega (arith, left)), left)

-- The length of the chunk at `index` of `n` bytes.
abbrev length_at : ℕ → ℕ → ℕ
length_at n index = if index + 1 == chunks_for n then n - index * 1024 else 1024

length_at-zero : (n : ℕ) → 1 ≤ n → min 1024 n ≡ length_at n 0
length_at-zero n h = ground (arith, h)

length_at-suc : (n i : ℕ) → 1024 < n → length_at (n - 1024) i ≡ length_at n (suc i)
length_at-suc n i h = ground (arith, h)

cut_at :
    (steps i : ℕ) (xs c : List ℕ)
    → get_elem? (cut steps xs) i ≡ some c
    → length c ≡ length_at (length xs) i
unfolding cut
cut_at zero i xs c h = cc
cut_at (suc steps) i [] c h = cc
cut_at (suc steps) zero (x ∷ xs) c h =
    let first : c ≡ take 1024 (x ∷ xs) = ground (arith, h) in
    rw first (length-take 1024 (x ∷ xs) ∙ length_at-zero (length (x ∷ xs)) (omega arith))
cut_at (suc steps) (suc i) (x ∷ xs) c h =
    let left = length-drop 1024 (x ∷ xs) in
    elim (Bool-cases (ltb 1024 (length (x ∷ xs)))) [
      | inl more ↦
          cut_at steps i (drop 1024 (x ∷ xs)) c h
          ∙ ap (λ n. length_at n i) left
          ∙ length_at-suc (length (x ∷ xs)) i (ground (arith, more))
      | inr done ↦ absurd (
          cut_short steps i (drop 1024 (x ∷ xs)) c
            (omega (arith, left, le_of (length (x ∷ xs)) done)) h)
    ]
  where
    le_of : (n : ℕ) → ltb 1024 n ≡ false → n ≤ 1024
    le_of n e = ground (arith, e)

    cut_short :
        (steps i : ℕ) (ys c : List ℕ) → length ys ≡ 0 → get_elem? (cut steps ys) i ≡ some c → ⊥
    cut_short zero i ys c e g = cc
    cut_short (suc steps) i [] c e g = cc
    cut_short (suc steps) i (y ∷ ys) c e g = omega (arith, e)

get_or-map :
    (f : List ℕ → List ℕ) (i : ℕ) (xs : List (List ℕ)) (c : List ℕ)
    → get_elem? xs i ≡ some c
    → (i < length xs) × (get_or (map f xs) i [] ≡ f c)
get_or-map f i [] c h = cc
get_or-map f zero (x ∷ xs) c h = (omega arith, ground (arith, h))
get_or-map f (suc i) (x ∷ xs) c h =
    let (below, there) = get_or-map f i xs c h in (omega (arith, below), there)

module _ (digest : List ℕ → List ℕ) where
  checked :
      (m : Manifest) (chunks : List (List ℕ)) (i : ℕ) (c : List ℕ)
      → m.hashes ≡ map digest chunks
      → get_elem? chunks i ≡ some c
      → length c ≡ expected_length m i
      → verify_chunk digest m i c ≡ ok tt
  unfolding verify_chunk
  checked m chunks i c hashes there sized =
      let (below, hash) = get_or-map digest i chunks c there in
      let count : length m.hashes ≡ length chunks = ap length hashes ∙ length-map chunks digest in
      let same : get_or m.hashes i [] ≡ digest c = ap (λ hs. get_or hs i []) hashes ∙ hash in
      rw same (ground (arith, below, count, sized, cmp_self (digest c)))

  prepared :
      (origin : MemberId) (sequence : ℕ) (policy : ObjectPolicy) (bytes : List ℕ)
      (o : PreparedObject)
      → from_opaque digest origin sequence policy bytes ≡ ok o
      → (o.chunks ≡ cut (length bytes) bytes)
        × (o.manifest.hashes ≡ map digest o.chunks)
        × (o.manifest.content_len ≡ length bytes)
        × (validate o.manifest ≡ ok tt)
  unfolding from_opaque
  prepared origin sequence policy bytes o h =
      let rest =
        reject_then (length bytes == 0 || ltb max_object_bytes (length bytes)) invalid_input _ h in
      let (_, fit, last) = >>=-eq-ok (validate _) _ rest in
      let made = ok_inv last in
      (
        sym (ap (λ x. x.chunks) made),
        sym (ap (λ x. x.manifest.hashes) made) ∙ ap (λ x. map digest x.chunks) made,
        sym (ap (λ x. x.manifest.content_len) made),
        sym (ap (λ x. validate x.manifest) made) ∙ fit,
      )
    where
      ok_inv : {a b : PreparedObject} → ◌≡◌ {A = Outcome PreparedObject} (ok a) (ok b) → a ≡ b
      ok_inv e = ground (arith, e)

  -- The chunks of a prepared object, one after the other, are the content that it was made from, and
  -- its manifest is valid and accepts each of them at its index, whatever the digest.
  pub from_opaque-verify_chunk :
      (origin : MemberId) (sequence : ℕ) (policy : ObjectPolicy) (bytes : List ℕ)
      (o : PreparedObject) (i : ℕ) (c : List ℕ)
      → from_opaque digest origin sequence policy bytes ≡ ok o
      → get_elem? o.chunks i ≡ some c
      → (joined o.chunks ≡ bytes)
        × (validate o.manifest ≡ ok tt)
        × (verify_chunk digest o.manifest i c ≡ ok tt)
  from_opaque-verify_chunk origin sequence policy bytes o i c h there =
      let (chunks, hashes, len, fit) = prepared origin sequence policy bytes o h in
      let n = length bytes in
      let at : get_elem? (cut n bytes) i ≡ some c =
        ap (λ xs. get_elem? xs i) (sym chunks) ∙ there in
      let count : length o.manifest.hashes ≡ chunks_for n =
        ap length hashes
        ∙ length-map o.chunks digest
        ∙ ap length chunks
        ∙ length-cut n bytes (omega arith) in
      let sized : length c ≡ expected_length o.manifest i =
        cut_at n i bytes c at ∙ rw (count, len) in
      (
        ap joined chunks ∙ joined-cut n bytes (omega arith),
        fit,
        checked o.manifest o.chunks i c hashes there sized,
      )
