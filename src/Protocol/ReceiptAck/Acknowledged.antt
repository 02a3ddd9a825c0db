-- ===== src/Protocol/ReceiptAck/Acknowledged.antt =====
-- What acknowledgements are accepted, and that those which an origin issues are.
use mesh_lab.Prelude.{
  ℕ, ◌≤◌, ◌<◌, ◌≡◌, some, ltb, ok_or-eq-ok, ◌↔◌, refl, ap, subst, ◌∙◌, false, List, length, ok, err,
  Result, All, arith, >>=-eq-ok, ok-subst, reject_inv, reject_then,
}
use mesh_lab.Prelude.Ord.{equal_iff, bytes_ord}
use mesh_lab.Prelude.OrdMap.{get}
use mesh_lab.Durable.{
  IsByte, member_ord, invalid_input, invalid_receipt, authentication_failed, max_logical_time,
}
use mesh_lab.Crypto.{Scope, Ed25519, Domain, CryptoError, verify}
use mesh_lab.Protocol.Signed.{time, signed, signed_parts}
use mesh_lab.Protocol.Signed.Parts.{signed_parts_inv, signed_parts-signed, length-signed}
use mesh_lab.Protocol.Certificate.{CertificateClaims}
use mesh_lab.Protocol.Roster.{VerifiedRoster, validate_at, member_of}
use mesh_lab.Protocol.ReceiptAck.{
  ReceiptAckRoute, VerifiedReceiptAck, read_ack, receipt_ack_parts, receipt_auth, untimely,
  uncertified, verify_receipt_ack, max_receipt_ack,
}
use mesh_lab.Protocol.ReceiptAck.Framing.{
  IsSized, written, read_ack_inv, length-written, read_ack-written,
}

-- The certified origin's word, under its signature, for the roster's scope: the roster holds now, and
-- the time of the acknowledgement is not after now, not before the roster begins, and within the
-- origin's certificate.
pub record Acknowledges {Key : Type 0} (ed : Ed25519 Key) (bytes : List ℕ) (roster : VerifiedRoster)
    (now : ℕ) (a : VerifiedReceiptAck) : Type 0 where
  pub signature : List ℕ
  pub cert : CertificateClaims
  pub sized : IsSized a.route roster.scope a.at_time
  pub enclosed : bytes ≡ signed (written roster.scope a.route a.at_time) signature
  pub tagged : length signature ≡ 64
  pub logical : now ≤ max_logical_time
  pub begun : roster.valid_from ≤ now
  pub lasting : now < roster.valid_until
  pub past : a.at_time ≤ now
  pub since : roster.valid_from ≤ a.at_time
  pub certified : get a.route.origin roster.members ≡ some cert
  pub cert_begun : cert.valid_from ≤ a.at_time
  pub cert_lasting : a.at_time < cert.valid_until
  pub proven :
      verify ed cert.signing_key roster.scope Domain.receipt_ack
        (written roster.scope a.route a.at_time)
        signature
      ≡ ok tt

receipt_auth_inv :
    (r : Result CryptoError (Unit {0})) (u : Unit {0}) → receipt_auth r ≡ ok u → r ≡ ok tt
receipt_auth_inv (ok tt) u h = refl
receipt_auth_inv (err e) u h = cc

own_scope :
    (s : Scope) (roster : VerifiedRoster) (at_time now : ℕ)
    → untimely s roster at_time now ≡ false
    → s ≡ roster.scope
own_scope s roster at_time now h =
    let group : s.group ≡ roster.scope.group =
      (equal_iff s.group roster.scope.group).0 (ground (arith, h)) in
    let epoch : s.epoch ≡ roster.scope.epoch = ground (arith, h) in
    λ i. record { group = group i; epoch = epoch i }

-- A roster that is valid now holds now.
validate_at_inv :
    (roster : VerifiedRoster) (now : ℕ)
    → validate_at now roster ≡ ok tt
    → (now ≤ max_logical_time) × (roster.valid_from ≤ now) × (now < roster.valid_until)
unfolding validate_at time
validate_at_inv roster now h =
    let logical = reject_inv (ltb max_logical_time now) invalid_input _ h in
    let held = reject_then (ltb max_logical_time now) invalid_input _ h in
    (ground (arith, logical), ground (arith, held), ground (arith, held))

module _ {Key : Type 0} (ed : Ed25519 Key) (bytes : List ℕ) (roster : VerifiedRoster) (now : ℕ)
    (a : VerifiedReceiptAck) where
  accepted-Acknowledges :
      All IsByte bytes
      → verify_receipt_ack ed bytes roster now ≡ ok a
      → Acknowledges ed bytes roster now a
  unfolding verify_receipt_ack receipt_ack_parts member_of
  accepted-Acknowledges those h =
      let (tt, current, h₁) = >>=-eq-ok (validate_at now roster) _ h in
      let (((q, s, stamp), body, signature), parted, h₂) =
        >>=-eq-ok (receipt_ack_parts bytes) _ h₁ in
      let ((body₁, signature₁), split, more) =
        >>=-eq-ok (signed_parts bytes max_receipt_ack) _ parted in
      let (t, read, same) = >>=-eq-ok (read_ack body₁) _ more in
      let (enclosed, tagged, _, _, inner) =
        signed_parts_inv bytes body₁ signature₁ max_receipt_ack those split in
      let (made, sized) = read_ack_inv body₁ t inner read in
      let (those₁, whole, tag) =
        ok-subst
          (λ (p : (ReceiptAckRoute × Scope × ℕ) × List ℕ × List ℕ).
            ((p.1 ≡ written p.0.1 p.0.0 p.0.2) × IsSized p.0.0 p.0.1 p.0.2)
            × (bytes ≡ signed p.1 p.2)
            × (length p.2 ≡ 64))
          (t, body₁, signature₁) ((q, s, stamp), body, signature) same
          ((made, sized), enclosed, tagged.sized) in
      let wrong = untimely s roster stamp now in
      let timely = reject_inv wrong invalid_receipt _ h₂ in
      let h₃ = reject_then wrong invalid_receipt _ h₂ in
      let own = own_scope s roster stamp now timely in
      let (cert, certified, h₄) = >>=-eq-ok (member_of q.origin roster) _ h₃ in
      let covered = reject_inv (uncertified cert stamp) invalid_receipt _ h₄ in
      let h₅ = reject_then (uncertified cert stamp) invalid_receipt _ h₄ in
      let (u, proven, last) =
        >>=-eq-ok (receipt_auth (verify ed cert.signing_key s Domain.receipt_ack body signature)) _
          h₅ in
      let text : body ≡ written s q stamp = those₁.0 in
      let (logical, begun, lasting) = validate_at_inv roster now current in
      ok-subst (Acknowledges ed bytes roster now) (record { route = q; at_time = stamp }) a last
        (record {
          signature = signature;
          cert = cert;
          sized = subst (λ x. IsSized q x stamp) own those₁.1;
          enclosed =
              subst (λ x. bytes ≡ signed (written x q stamp) signature) own
                (whole ∙ ap (λ b. signed b signature) text);
          tagged = tag;
          logical = logical;
          begun = begun;
          lasting = lasting;
          past = ground (arith, timely);
          since = ground (arith, timely);
          certified =
              ok_or-eq-ok (get q.origin roster.members) authentication_failed cert certified;
          cert_begun = ground (arith, covered);
          cert_lasting = ground (arith, covered);
          proven =
              subst
                (λ x.
                  verify ed cert.signing_key x Domain.receipt_ack (written x q stamp) signature
                  ≡ ok tt)
                own
                (subst (λ b. verify ed cert.signing_key s Domain.receipt_ack b signature ≡ ok tt)
                  text (receipt_auth_inv _ u proven));
        })

  pub Acknowledges-accepted :
      Acknowledges ed bytes roster now a → verify_receipt_ack ed bytes roster now ≡ ok a
  unfolding verify_receipt_ack receipt_ack_parts member_of validate_at time
  Acknowledges-accepted k =
      let body = written roster.scope a.route a.at_time in
      let framed : length (signed body k.signature) ≤ max_receipt_ack = omega (
        arith,
        length-signed body k.signature,
        k.tagged,
        length-written roster.scope a.route a.at_time k.sized,
      ) in
      let parted =
        signed_parts-signed body k.signature max_receipt_ack (omega arith) k.tagged framed in
      let read = read_ack-written roster.scope a.route a.at_time k.sized in
      let current : validate_at now roster ≡ ok tt =
        ground (arith, k.logical, k.begun, k.lasting) in
      let same = (equal_iff roster.scope.group roster.scope.group).1 refl in
      let timely : untimely roster.scope roster a.at_time now ≡ false =
        ground (arith, same, k.past, k.since, k.lasting) in
      let covered : uncertified k.cert a.at_time ≡ false =
        ground (arith, k.cert_begun, k.cert_lasting) in
      rw (k.enclosed, current, parted, read, timely, k.certified, covered, k.proven) refl

  -- A byte string is accepted as a receipt acknowledgement at `now` exactly if it is the canonical
  -- body for the roster's scope under a signature by the origin that it names, the roster has a
  -- certificate of the origin and holds at `now`, and the time of the acknowledgement is not after
  -- `now`, not before the roster begins, and within the certificate.
  pub verify_receipt_ack_iff :
      All IsByte bytes
      → (verify_receipt_ack ed bytes roster now ≡ ok a) ↔ Acknowledges ed bytes roster now a
  verify_receipt_ack_iff those = (accepted-Acknowledges those, Acknowledges-accepted)
