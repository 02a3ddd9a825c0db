-- ===== src/Protocol/Handoff/Framing.antt =====
-- The bytes of a handoff.
use mesh_lab.Prelude.{
  ℕ, ◌≤◌, ◌≡◌, ◌↔◌, refl, ap, ◌∙◌, List, length, ltb, ok, All, arith, >>=-eq-ok, ok-subst,
  reject_then,
}
use mesh_lab.Prelude.Ord.{bytes_ord}
use mesh_lab.Durable.{IsByte, resource_pressure}
use mesh_lab.Protocol.Signed.{signed, signed_parts}
use mesh_lab.Protocol.Signed.Parts.{signed_parts_inv, signed_parts-signed, length-signed}
use mesh_lab.Protocol.Handoff.{
  AuthorityHandoff, handoff_body, encode_handoff, read_handoff, decode_handoff,
  max_authority_handoff,
}
use mesh_lab.Protocol.Handoff.Body.{
  read_handoff_inv, length-written, read_handoff-written, written, handoff_body-written, IsSized,
  IsFit, handoff_body_inv,
}

encode_handoff_inv :
    (h : AuthorityHandoff) (bytes : List ℕ)
    → encode_handoff h ≡ ok bytes
    → IsFit h × (bytes ≡ signed (written h) h.signature)
unfolding encode_handoff
encode_handoff_inv h bytes e =
    let (body, made, e₁) = >>=-eq-ok (handoff_body h) _ e in
    let (fit, split) = handoff_body_inv h body made in
    let last =
      reject_then (ltb max_authority_handoff (length (signed body h.signature))) resource_pressure _
        e₁ in
    (
      fit,
      ok-subst (λ b. b ≡ signed (written h) h.signature) (signed body h.signature) bytes last
          (rw split refl),
    )

pub encode_handoff-written :
    (h : AuthorityHandoff)
    → IsFit h
    → IsSized h
    → (encode_handoff h ≡ ok (signed (written h) h.signature))
      × (length (signed (written h) h.signature) ≤ max_authority_handoff)
unfolding encode_handoff
encode_handoff-written h f s =
    let fits : length (signed (written h) h.signature) ≤ max_authority_handoff =
      omega (arith, length-signed (written h) h.signature, length-written h s, s.signature) in
    (rw (handoff_body-written h f) (ground (arith, fits)), fits)

module _ (bytes : List ℕ) (h : AuthorityHandoff) where
  decoded-encode :
      All IsByte bytes → decode_handoff bytes ≡ ok h → (encode_handoff h ≡ ok bytes) × IsSized h
  unfolding decode_handoff
  decoded-encode those e =
      let ((body, signature), parted, e₁) =
        >>=-eq-ok (signed_parts bytes max_authority_handoff) _ e in
      let (enclosed, tagged, _, _, inner) =
        signed_parts_inv bytes body signature max_authority_handoff those parted in
      let (p, read, e₂) = >>=-eq-ok (read_handoff body signature) _ e₁ in
      let (split, own, sized) = read_handoff_inv body signature p inner tagged.sized read in
      let (again, made, last) = >>=-eq-ok (encode_handoff p) _ e₂ in
      let (fit, whole) = encode_handoff_inv p again made in
      let same : again ≡ bytes = whole ∙ rw (own, enclosed, split) refl in
      ok-subst (λ x. (encode_handoff x ≡ ok bytes) × IsSized x) p h last (made ∙ ap ok same, sized)

  pub encode-decoded : encode_handoff h ≡ ok bytes → IsSized h → decode_handoff bytes ≡ ok h
  unfolding decode_handoff
  encode-decoded e s =
      let (fit, whole) = encode_handoff_inv h bytes e in
      let (made, fits) = encode_handoff-written h fit s in
      rw
        (
          whole,
          signed_parts-signed (written h) h.signature max_authority_handoff (omega arith)
              s.signature fits,
          read_handoff-written h fit s,
          made,
        )
        refl

  -- A byte string decodes to a handoff exactly if it is the handoff's encoding and the handoff's
  -- arrays have their sizes.
  pub decode_handoff_iff :
      All IsByte bytes → (decode_handoff bytes ≡ ok h) ↔ ((encode_handoff h ≡ ok bytes) × IsSized h)
  decode_handoff_iff those = (decoded-encode those, λ (e, s). encode-decoded e s)
