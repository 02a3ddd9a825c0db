-- ===== src/Protocol/ReceiptAck/Issued.antt =====
-- What the origin of an object issues is accepted by the holders of the roster.
use mesh_lab.Prelude.{
  ℕ, ◌≤◌, ◌<◌, ◌≡◌, sym, ap, subst, ◌∙◌, not, ◌||◌, List, length, some, ltb, ok, arith, >>=-eq-ok,
  ok-subst, reject_inv, reject_then,
}
use mesh_lab.Prelude.Ord.{equal, equal_iff, bytes_ord}
use mesh_lab.Prelude.OrdMap.{get}
use mesh_lab.Durable.{
  MemberId, ObjectId, member_ord, IsU64, invalid_input, invalid_receipt, max_logical_time,
}
use mesh_lab.Crypto.{Ed25519, Domain, sign, verify}
use mesh_lab.Crypto.Signing.{IsEd25519, sign_inv}
use mesh_lab.Object.{outside}
use mesh_lab.Protocol.Certificate.{CertificateClaims}
use mesh_lab.Protocol.Roster.{VerifiedRoster}
use mesh_lab.Protocol.Signed.{auth, time, signed}
use mesh_lab.Protocol.Signed.Parts.{auth_ok}
use mesh_lab.Protocol.ReceiptAck.{
  ReceiptAckRoute, VerifiedReceiptAck, receipt_ack_body, issue_receipt_ack, verify_receipt_ack,
  max_receipt,
}
use mesh_lab.Protocol.ReceiptAck.Framing.{written, receipt_ack_body-written}
use mesh_lab.Protocol.ReceiptAck.Acknowledged.{Acknowledges-accepted}

module _ {Key : Type 0} (ed : Ed25519 Key) (sha256 : List ℕ → List ℕ) (proof : List ℕ)
    (object : ObjectId) (origin actor : MemberId) (roster : VerifiedRoster) (signer : Key) where
  -- The route of the acknowledgement.
  abbrev pub acknowledged : ReceiptAckRoute
  acknowledged = record {
    receipt_id = sha256 proof;
    object = object;
    origin = origin;
    actor = actor;
  }

  issued_inv :
      IsEd25519 ed
      → (bytes : List ℕ) (now : ℕ)
      → issue_receipt_ack ed sha256 proof object origin actor roster.scope signer now ≡ ok bytes
      → (signature : List ℕ) × (bytes ≡ signed (written roster.scope acknowledged now) signature)
        × (length signature ≡ 64)
        × (now ≤ max_logical_time)
        × (ed.verifying_key signer ≡ origin.id)
        × (verify ed
              (ed.verifying_key signer)
              roster.scope
              Domain.receipt_ack
              (written roster.scope acknowledged now)
              signature
            ≡ ok tt)
  unfolding issue_receipt_ack time
  issued_inv law bytes now h =
      let timely = reject_inv (ltb max_logical_time now) invalid_input _ h in
      let h₁ = reject_then (ltb max_logical_time now) invalid_input _ h in
      let wrong =
        outside max_receipt (length proof) || not (equal (ed.verifying_key signer) origin.id) in
      let fits = reject_inv wrong invalid_receipt _ h₁ in
      let h₂ = reject_then wrong invalid_receipt _ h₁ in
      let body = receipt_ack_body roster.scope acknowledged now in
      let text = receipt_ack_body-written roster.scope acknowledged now in
      let (signature, made, last) =
        >>=-eq-ok (auth (sign ed signer roster.scope Domain.receipt_ack body)) _ h₂ in
      let (tagged, proven) =
        sign_inv law signer roster.scope Domain.receipt_ack body signature
          (auth_ok _ signature made) in
      let public = ed.verifying_key signer in
      (
        signature,
        ok-subst (λ b. b ≡ signed (written roster.scope acknowledged now) signature)
            (signed body signature) bytes last (ap (λ b. signed b signature) text),
        tagged,
        ground (arith, timely),
        (equal_iff public origin.id).0 (ground (arith, fits)),
        subst (λ b. verify ed public roster.scope Domain.receipt_ack b signature ≡ ok tt) text
            proven,
      )

  -- If Ed25519 verifies what it signs, then an acknowledgement that an origin could issue at a time
  -- that its certificate and the roster cover is accepted from then on, as long as the roster holds,
  -- with the receipt's digest, the object, both members and the time that it was issued for.
  pub issued_acknowledged :
      (cert : CertificateClaims) (bytes : List ℕ) (now later : ℕ)
      → IsEd25519 ed
      → length roster.scope.group ≡ 32
      → length (sha256 proof) ≡ 32
      → length object.id ≡ 32
      → length actor.id ≡ 32
      → IsU64 roster.scope.epoch
      → issue_receipt_ack ed sha256 proof object origin actor roster.scope signer now ≡ ok bytes
      → get origin roster.members ≡ some cert
      → cert.signing_key ≡ ed.verifying_key signer
      → cert.valid_from ≤ now
      → now < cert.valid_until
      → roster.valid_from ≤ now
      → now ≤ later
      → later < roster.valid_until
      → later ≤ max_logical_time
      → verify_receipt_ack ed bytes roster later
        ≡ ok (record { route = acknowledged; at_time = now })
  issued_acknowledged cert bytes now later law group digest id receiver epoch h certified own begun
        lasting since after before logical =
      let (signature, enclosed, tagged, timely, named, proven) = issued_inv law bytes now h in
      let a : VerifiedReceiptAck = record { route = acknowledged; at_time = now } in
      Acknowledges-accepted ed bytes roster later a (record {
        signature = signature;
        cert = cert;
        sized = record {
          group = group;
          receipt_id = digest;
          object = id;
          origin = ap length (sym named) ∙ law.key_sized signer;
          actor = receiver;
          epoch = epoch;
          word = omega (arith, timely);
        };
        enclosed = enclosed;
        tagged = tagged;
        logical = logical;
        begun = omega (arith, since, after);
        lasting = before;
        past = after;
        since = since;
        certified = certified;
        cert_begun = begun;
        cert_lasting = lasting;
        proven =
            subst
              (λ k.
                verify ed k roster.scope Domain.receipt_ack (written roster.scope acknowledged now)
                  signature
                ≡ ok tt)
              (sym own) proven;
      })
