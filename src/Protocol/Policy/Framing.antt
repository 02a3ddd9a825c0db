-- ===== src/Protocol/Policy/Framing.antt =====
-- The bytes of a bundle.
use mesh_lab.Prelude.{
  ℕ, ◌≤◌, ◌≡◌, ◌↔◌, refl, sym, ap, ◌∙◌, false, List, [], ◌∷◌, ◌++◌, length, any, ltb, ok, All,
  arith, append-nil, append_assoc, >>=-eq-ok, ok-subst, reject_inv, reject_then,
}
use mesh_lab.Durable.{
  IsByte, IsU64, invalid_input, resource_pressure, max_logical_time, max_group_members,
}
use mesh_lab.Codec.{
  Reader, Writer, push_all, head_bytes, uint, byte_string, head, write_array, write_uint,
  write_bytes, finish,
}
use mesh_lab.Codec.Head.{remaining}
use mesh_lab.Codec.Canonical.{Reads}
use mesh_lab.Codec.Decodes.{
  Decodes, At-start, At-then, At-end, array-Decodes, uint-Decodes, fixed-Decodes, count-Decodes,
  byte_string-Decodes,
}
use mesh_lab.Codec.Inverse.{
  array_then, uint_then, count_then, fixed_then, new_reader_then, end_then, uint_inv,
  byte_string_inv, blob,
}
use mesh_lab.Codec.Each.{prints, write_each-prints, read_each-Decodes, read_each_then}
use mesh_lab.Object.{outside}
use mesh_lab.Protocol.Signed.{version}
use mesh_lab.Protocol.Signed.Parts.{new_reader-fits, version_then}
use mesh_lab.Protocol.Policy.{
  PolicyBundle, unfit_bundle, bundle_bytes, encode_bundle, read_bundle, decode_bundle,
  max_policy_bundle,
}

-- The arrays of a bundle have their sizes.
pub record IsSized (b : PolicyBundle) : Type 0 where
  pub authority : length b.authority ≡ 32
  pub group : length b.scope.group ≡ 32

-- The items of a bundle.
abbrev written : PolicyBundle → List ℕ
written b =
    head_bytes 4 6
    ++ (head_bytes 0 1
        ++ (blob b.authority
            ++ (blob b.scope.group
                ++ (head_bytes 0 b.scope.epoch
                    ++ (head_bytes 4 (length b.certificates)
                        ++ (prints blob b.certificates
                            ++ (head_bytes 4 (length b.revoked)
                                ++ (prints (head_bytes 0) b.revoked ++ []))))))))

put_blob : (c : List ℕ) (w : Writer) → write_bytes c w ≡ push_all (blob c) w
unfolding write_bytes head
put_blob c w = ap (λ o. record { out = o }) (append_assoc w.out (head_bytes 2 (length c)) c)

put_uint : (n : ℕ) (w : Writer) → write_uint n w ≡ push_all (head_bytes 0 n) w
unfolding write_uint head
put_uint n w = refl

bundle_bytes-written : (b : PolicyBundle) → bundle_bytes b ≡ written b
unfolding bundle_bytes finish write_array write_uint write_bytes head
bundle_bytes-written b =
    rw
      (
        write_each-prints write_bytes blob put_blob b.certificates _,
        write_each-prints write_uint (head_bytes 0) put_uint b.revoked _,
      )
      (simp (append_assoc, append-nil))

certificates-Decode :
    (cs : List (List ℕ))
    → any (λ c. outside 1024 (length c)) cs ≡ false
    → All (λ c. Decodes (byte_string 1024) (blob c) c) cs
certificates-Decode [] h = tt
certificates-Decode (c ∷ cs) h =
    (byte_string-Decodes 1024 c (ground (arith, h)), certificates-Decode cs (ground (arith, h)))

serials-Decode :
    (ns : List ℕ)
    → any (outside max_logical_time) ns ≡ false
    → All (λ n. Decodes uint (head_bytes 0 n) n) ns
serials-Decode [] h = tt
serials-Decode (n ∷ ns) h =
    (uint-Decodes n (ground (arith, h)), serials-Decode ns (ground (arith, h)))

byte_string_inverse :
    (b : List ℕ) (r r' : Reader)
    → All IsByte (remaining r)
    → byte_string 1024 r ≡ ok (b, r')
    → ((length b ≤ 1024) × All IsByte b) × Reads r r' (blob b)
byte_string_inverse b r r' bytes h =
    let (bound, those, reads) = byte_string_inv 1024 b r r' bytes h in ((bound, those), reads)

read_bundle_inv :
    (bytes : List ℕ) (t : PolicyBundle)
    → All IsByte bytes
    → read_bundle bytes ≡ ok t
    → (bytes ≡ written t) × IsSized t
unfolding read_bundle
read_bundle_inv bytes t those h = new_reader_then bytes max_policy_bundle _ t h (λ _ h.
    array_then 6 _ _ t those h (λ _ r₀ (_, e₀, b, h). uint_then _ r₀ t b h (λ v r₁ (_, e₁, b, h).
      version_then v _ t h (λ one h. fixed_then 32 _ r₁ t b h (λ authority r₂ (s₂, e₂, b, h).
        fixed_then 32 _ r₂ t b h (λ group r₃ (s₃, e₃, b, h).
          uint_then _ r₃ t b h (λ epoch r₄ (_, e₄, b, h).
            count_then max_group_members _ r₄ t b h (λ n r₅ (_, e₅, b, h).
              read_each_then (byte_string 1024) blob (λ x. (length x ≤ 1024) × All IsByte x)
                byte_string_inverse n _ r₅ t b h
                (λ cs r₆ (s₆, e₆, b, h). count_then 1024 _ r₆ t b h (λ k r₇ (_, e₇, b, h).
                  read_each_then uint (head_bytes 0) IsU64 uint_inv k _ r₇ t b h
                    (λ ns r₈ (s₈, e₈, b, h). end_then _ r₈ t h (λ nothing last.
                      ok-subst (λ x. (bytes ≡ written x) × IsSized x) _ t last
                        (
                          e₀ ∙ rw (e₁, e₂, e₃, e₄, e₅, e₆, e₇, e₈, nothing, one, s₆.0, s₈.0),
                          record { authority = s₂.sized; group = s₃.sized },
                        )))))))))))))

read_bundle-written :
    (b : PolicyBundle)
    → unfit_bundle b ≡ false
    → IsSized b
    → length (written b) ≤ max_policy_bundle
    → read_bundle (written b) ≡ ok b
unfolding read_bundle version
read_bundle-written b fit s small =
    let tail₈ = prints (head_bytes 0) b.revoked ++ [] in
    let tail₇ = head_bytes 4 (length b.revoked) ++ tail₈ in
    let tail₆ = prints blob b.certificates ++ tail₇ in
    let tail₅ = head_bytes 4 (length b.certificates) ++ tail₆ in
    let tail₄ = head_bytes 0 b.scope.epoch ++ tail₅ in
    let tail₃ = blob b.scope.group ++ tail₄ in
    let tail₂ = blob b.authority ++ tail₃ in
    let tail₁ = head_bytes 0 1 ++ tail₂ in
    let certified =
      read_each-Decodes (byte_string 1024) blob b.certificates
        (certificates-Decode b.certificates (ground (arith, fit))) in
    let revoked =
      read_each-Decodes uint (head_bytes 0) b.revoked
        (serials-Decode b.revoked (ground (arith, fit))) in
    let members : length b.certificates ≤ max_group_members = ground (arith, fit) in
    let serials : length b.revoked ≤ 1024 = ground (arith, fit) in
    At-then _ tail₁ (array-Decodes 6 (omega arith)) (At-start (written b) (omega (arith, small)))
      (λ r₀ e₀ at. At-then r₀ tail₂ (uint-Decodes 1 (omega arith)) at (λ r₁ e₁ at.
        At-then r₁ tail₃ (fixed-Decodes 32 b.authority s.authority) at (λ r₂ e₂ at.
          At-then r₂ tail₄ (fixed-Decodes 32 b.scope.group s.group) at (λ r₃ e₃ at.
            At-then r₃ tail₅ (uint-Decodes b.scope.epoch (ground (arith, fit))) at (λ r₄ e₄ at.
              At-then r₄ tail₆
                (count-Decodes max_group_members (length b.certificates) members
                  (omega (arith, members)))
                at
                (λ r₅ e₅ at. At-then r₅ tail₇ certified at (λ r₆ e₆ at.
                  At-then r₆ tail₈
                    (count-Decodes 1024 (length b.revoked) serials (omega (arith, serials))) at
                    (λ r₇ e₇ at. At-then r₇ [] revoked at (λ r₈ e₈ at. rw (
                      new_reader-fits (written b) max_policy_bundle small,
                      e₀,
                      e₁,
                      e₂,
                      e₃,
                      e₄,
                      e₅,
                      e₆,
                      e₇,
                      e₈,
                      At-end r₈ at,
                    ))))))))))

encode_bundle_inv :
    (b : PolicyBundle) (bytes : List ℕ)
    → encode_bundle b ≡ ok bytes
    → (unfit_bundle b ≡ false) × (length (written b) ≤ max_policy_bundle) × (bytes ≡ written b)
unfolding encode_bundle
encode_bundle_inv b bytes e =
    let fit = reject_inv (unfit_bundle b) invalid_input _ e in
    let e₁ = reject_then (unfit_bundle b) invalid_input _ e in
    let long = ltb max_policy_bundle (length (bundle_bytes b)) in
    let small = reject_inv long resource_pressure _ e₁ in
    let last = reject_then long resource_pressure _ e₁ in
    (
      fit,
      rw (← bundle_bytes-written b) (ground (arith, small)),
      ok-subst (λ x. x ≡ written b) (bundle_bytes b) bytes last (bundle_bytes-written b),
    )

module _ (bytes : List ℕ) (b : PolicyBundle) where
  decoded-encode :
      All IsByte bytes → decode_bundle bytes ≡ ok b → (encode_bundle b ≡ ok bytes) × IsSized b
  unfolding decode_bundle
  decoded-encode those e =
      let (p, read, e₁) = >>=-eq-ok (read_bundle bytes) _ e in
      let (split, sized) = read_bundle_inv bytes p those read in
      let (again, made, last) = >>=-eq-ok (encode_bundle p) _ e₁ in
      let (_, _, whole) = encode_bundle_inv p again made in
      ok-subst (λ x. (encode_bundle x ≡ ok bytes) × IsSized x) p b last
        (made ∙ ap ok (whole ∙ sym split), sized)

  encode-decoded : encode_bundle b ≡ ok bytes → IsSized b → decode_bundle bytes ≡ ok b
  unfolding decode_bundle
  encode-decoded e s =
      let (fit, small, whole) = encode_bundle_inv b bytes e in
      let read : read_bundle bytes ≡ ok b = rw whole (read_bundle-written b fit s small) in
      rw (read, e) refl

  -- A byte string decodes to a policy bundle exactly if it is the bundle's encoding and the bundle's
  -- arrays have their sizes.
  pub decode_bundle_iff :
      All IsByte bytes → (decode_bundle bytes ≡ ok b) ↔ ((encode_bundle b ≡ ok bytes) × IsSized b)
  decode_bundle_iff those = (decoded-encode those, λ (e, s). encode-decoded e s)
