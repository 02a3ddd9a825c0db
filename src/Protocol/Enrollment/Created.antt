-- ===== src/Protocol/Enrollment/Created.antt =====
-- What a device creates is accepted by the authority, while it holds.
use mesh_lab.Prelude.{
  ℕ, ◌≤◌, ◌<◌, ◌≡◌, refl, ap, subst, List, length, some, ok, arith, >>=-eq-ok, ok-subst,
}
use mesh_lab.Crypto.{Scope, Ed25519, Domain, sign, verify}
use mesh_lab.Crypto.Signing.{IsEd25519, sign_inv}
use mesh_lab.Protocol.Signed.{auth, signed}
use mesh_lab.Protocol.Signed.Parts.{auth_ok}
use mesh_lab.Protocol.Enrollment.{
  EnrollmentRequest, enrollment_body, create_enrollment_request, verify_enrollment_request,
}
use mesh_lab.Protocol.Enrollment.Framing.{enrollment_body_inv}
use mesh_lab.Protocol.Enrollment.Requests.{Accepts, Accepts-accepted}

module _ {Key : Type 0} (ed : Ed25519 Key) (signer : Key) (delivery : List ℕ) (scope : Scope)
    (valid_from valid_until : ℕ) (nonce : List ℕ) where
  -- The request that the device makes.
  abbrev pub requested : EnrollmentRequest
  requested = record {
    scope = scope;
    member = record { id = ed.verifying_key signer };
    signing_key = ed.verifying_key signer;
    delivery_key = delivery;
    valid_from = valid_from;
    valid_until = valid_until;
    nonce = nonce;
  }

  -- If Ed25519 verifies what it signs, then a request that a device could create is accepted, as the
  -- request that was made, from the time at which it begins until it is over.
  pub created_accepted :
      IsEd25519 ed
      → length scope.group ≡ 32
      → length delivery ≡ 32
      → length nonce ≡ 16
      → (bytes : List ℕ) (now : ℕ)
      → create_enrollment_request ed signer delivery scope valid_from valid_until (some nonce)
        ≡ ok bytes
      → valid_from ≤ now
      → now < valid_until
      → verify_enrollment_request ed bytes now ≡ ok requested
  unfolding create_enrollment_request
  created_accepted law group keyed random bytes now h after before =
      let (body, canonical, h₁) = >>=-eq-ok (enrollment_body requested) _ h in
      let (signature, made, last) =
        >>=-eq-ok (auth (sign ed signer scope Domain.enrollment body)) _ h₁ in
      let (tagged, proven) =
        sign_inv law signer scope Domain.enrollment body signature (auth_ok _ signature made) in
      let (fit, split) = enrollment_body_inv requested body canonical in
      Accepts-accepted ed bytes now requested (
        ok-subst (λ b. Accepts ed b now requested) (signed body signature) bytes last
          (record {
            signature = signature;
            sized = record {
              group = group;
              member = law.key_sized signer;
              signing_key = law.key_sized signer;
              delivery_key = keyed;
              nonce = random;
            };
            some_epoch = ground (arith, fit);
            epoch = ground (arith, fit);
            nonempty = omega (arith, after, before);
            until = ground (arith, fit);
            own_key = refl;
            enclosed = ap (λ b. signed b signature) split;
            tagged = tagged;
            begun = after;
            lasting = before;
            proven =
                subst
                  (λ b.
                    verify ed (ed.verifying_key signer) scope Domain.enrollment b signature ≡ ok tt)
                  split proven;
          }))
