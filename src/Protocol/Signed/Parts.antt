-- ===== src/Protocol/Signed/Parts.antt =====
-- A signed record is its body and its signature, and nothing else.
use mesh_lab.Prelude.{
  ℕ, ◌+◌, ◌≤◌, ◌≡◌, ◌↔◌, refl, ap, subst, ◌∙◌, List, [], ◌++◌, length, ok, ◌>>=◌, All, arith,
  append-nil, append_assoc, length-append, ok-subst, Bool-cases, inl, inr, ◌==◌, Result, err,
}
use mesh_lab.Durable.{Outcome, IsByte, IsU64, IsArray}
use mesh_lab.Codec.{head_bytes, new_reader}
use mesh_lab.Codec.Decodes.{
  At, At-start, At-then, At-end, length-head_bytes_le, array-Decodes, byte_string-Decodes,
  fixed-Decodes,
}
use mesh_lab.Codec.Inverse.{
  array_then, byte_string_then, fixed_then, new_reader_then, end_then, blob, length-head_append,
  length-blob_append,
}
use mesh_lab.Crypto.{CryptoError}
use mesh_lab.Protocol.Signed.{auth, version, signed, signed_parts}

pub signed_bytes :
    (body signature : List ℕ)
    → signed body signature ≡ head_bytes 4 2 ++ (blob body ++ blob signature)
unfolding signed
signed_bytes body signature = simp append_assoc

pub signed_parts_inv :
    (bytes body signature : List ℕ) (max : ℕ)
    → All IsByte bytes
    → signed_parts bytes max ≡ ok (body, signature)
    → (bytes ≡ signed body signature)
      × IsArray 64 signature
      × (length bytes ≤ max)
      × (length body ≤ max)
      × All IsByte body
unfolding signed_parts
signed_parts_inv bytes body signature max those h =
    new_reader_then bytes max _ (body, signature) h
      (λ fits h₀. array_then 2 _ _ _ those h₀ (λ _ r₁ (_, e₁, b₁, h₁).
        byte_string_then max _ r₁ _ b₁ h₁ (λ c r₂ (small, e₂, b₂, h₂).
          fixed_then 64 _ r₂ _ b₂ h₂ (λ s r₃ (sized, e₃, _, h₃). end_then _ r₃ _ h₃ (λ nothing last.
            ok-subst
              (λ (p : List ℕ × List ℕ).
                (bytes ≡ signed p.0 p.1)
                × IsArray 64 p.1
                × (length bytes ≤ max)
                × (length p.0 ≤ max)
                × All IsByte p.0)
              (c, s) (body, signature) last
              (
                e₁ ∙ rw (e₂, e₃, nothing, append-nil, signed_bytes c s),
                sized,
                fits,
                small.0,
                small.1,
              ))))))

pub length-signed :
    (body signature : List ℕ) → length (signed body signature) ≤ 27 + length body + length signature
length-signed body signature = omega (
  arith,
  ap length (signed_bytes body signature),
  length-head_append 4 2 (blob body ++ blob signature),
  length-blob_append body (blob signature),
  length-append (head_bytes 2 (length signature)) signature,
  length-head_bytes_le 2 (length signature),
)

-- A reader that takes the whole of its bytes.
pub new_reader-fits :
    (bytes : List ℕ) (limit : ℕ)
    → length bytes ≤ limit
    → new_reader bytes limit ≡ ok (record { bytes = bytes; pos = 0 })
unfolding new_reader
new_reader-fits bytes limit h = ground arith

pub signed_parts-signed :
    (body signature : List ℕ) (max : ℕ)
    → IsU64 max
    → length signature ≡ 64
    → length (signed body signature) ≤ max
    → signed_parts (signed body signature) max ≡ ok (body, signature)
unfolding signed_parts
signed_parts-signed body signature max word sized fits =
    let bytes = signed body signature in
    let split : bytes ≡ head_bytes 4 2 ++ (blob body ++ (blob signature ++ [])) =
      signed_bytes body signature ∙ rw append-nil in
    let small : length body ≤ max = omega (
      arith,
      fits,
      ap length split,
      length-append (head_bytes 4 2) (blob body ++ (blob signature ++ [])),
      length-append (blob body) (blob signature ++ []),
      length-append (head_bytes 2 (length body)) body,
    ) in
    let start =
      subst (At (record { bytes = bytes; pos = 0 })) split
        (At-start bytes (omega (arith, fits, word))) in
    At-then _ (blob body ++ (blob signature ++ [])) (array-Decodes 2 (omega arith)) start
      (λ r₁ e₁ at₁.
        At-then r₁ (blob signature ++ []) (byte_string-Decodes max body small) at₁ (λ r₂ e₂ at₂.
          At-then r₂ [] (fixed-Decodes 64 signature sized) at₂
            (λ r₃ e₃ at₃. rw (new_reader-fits bytes max fits, e₁, e₂, e₃, At-end r₃ at₃))))

-- A byte string is split into a body and a signature exactly if it is their signed record.
pub signed_parts_iff :
    (bytes body signature : List ℕ) (max : ℕ)
    → All IsByte bytes
    → IsU64 max
    → (signed_parts bytes max ≡ ok (body, signature))
      ↔ ((bytes ≡ signed body signature) × (length signature ≡ 64) × (length bytes ≤ max))
signed_parts_iff bytes body signature max those word = (
  λ h.
      let (e, s, fits, _, _) = signed_parts_inv bytes body signature max those h in
      (e, s.sized, fits),
  λ (e, sized, fits).
      rw e (signed_parts-signed body signature max word sized (subst (λ b. length b ≤ max) e fits)),
)

-- The version that was read is 1.
pub version_then :
    {C : Type 0} {G : Type 0} (v : ℕ) (m : Outcome C) (c : C)
    → (version v >>= λ _. m) ≡ ok c
    → (v ≡ 1 → m ≡ ok c → G)
    → G
unfolding version
version_then v m c h k = elim (Bool-cases (v == 1)) [
  | inl e ↦ k (ground (arith, e)) (ground (arith, h, e))
  | inr e ↦ absurd (ground (arith, h, e))
]

pub auth_inv : (r : Result CryptoError (Unit {0})) (u : Unit {0}) → auth r ≡ ok u → r ≡ ok tt
auth_inv (ok tt) u h = refl
auth_inv (err e) u h = cc

pub auth_ok : {A : Type 0} (r : Result CryptoError A) (a : A) → auth r ≡ ok a → r ≡ ok a
auth_ok {A} (ok b) a h = ok-subst (λ c. ◌≡◌ {A = Result CryptoError A} (ok b) (ok c)) b a h refl
auth_ok (err e) a h = cc
