-- ===== src/Protocol/Roster/Admission.antt =====
-- What a certificate is that a roster admits.
use mesh_lab.Prelude.{
  ℕ, ◌≤◌, ◌<◌, ◌≡◌, refl, false, not, List, ok, reject_inv, reject_then, >>=-eq-ok, ok-subst, arith,
}
use mesh_lab.Prelude.Ord.{equal, equal_iff, bytes_ord, nat_ord}
use mesh_lab.Prelude.OrdMap.{contains_key}
use mesh_lab.Durable.{authentication_failed, conflict, invalid_input, max_logical_time}
use mesh_lab.Crypto.{Scope, Ed25519, Domain, verify}
use mesh_lab.Protocol.Signed.{auth, signed_parts}
use mesh_lab.Protocol.Signed.Parts.{auth_inv}
use mesh_lab.Protocol.Certificate.{CertificateClaims, unfit_claims, cert_body, read_claims}
use mesh_lab.Protocol.Roster.{OrdSet, Roll, taken, enrolled, foreign, admit}

module _ {Key : Type 0} (ed : Ed25519 Key) (sha256 : List ℕ → List ℕ) (authority : List ℕ)
    (scope : Scope) (revoked : OrdSet ℕ) (now : ℕ) where
  -- The authority signed the very bytes that the claims are written as, for this scope; the serial is
  -- not revoked, and the claims hold now.
  pub record Admitted (encoded : List ℕ) (c : CertificateClaims) : Type 0 where
    pub body : List ℕ
    pub signature : List ℕ
    pub parted : signed_parts encoded 1024 ≡ ok (body, signature)
    pub written : cert_body sha256 c authority ≡ ok body
    pub signed : verify ed authority scope Domain.certificate body signature ≡ ok tt
    pub group : c.group ≡ scope.group
    pub epoch : c.epoch ≡ scope.epoch
    pub unrevoked : contains_key c.serial revoked ≡ false
    pub begun : c.valid_from ≤ now
    pub lasting : now < c.valid_until

  pub admit_inv :
      (encoded : List ℕ) (g g' : Roll)
      → admit ed sha256 authority scope revoked now encoded g ≡ ok g'
      → (c : CertificateClaims) × Admitted encoded c
        × (taken c g ≡ false)
        × (g' ≡ enrolled c encoded g)
  unfolding admit
  admit_inv encoded g g' h =
      let ((body, signature), parted, h₁) = >>=-eq-ok (signed_parts encoded 1024) _ h in
      let ((c, authority_id), _, h₂) = >>=-eq-ok (read_claims body) _ h₁ in
      let own = foreign ed sha256 authority scope revoked now c authority_id in
      let fits : own ≡ false = reject_inv own authentication_failed _ h₂ in
      let h₃ = reject_then own authentication_failed _ h₂ in
      let (written, write, h₄) = >>=-eq-ok (cert_body sha256 c authority) _ h₃ in
      let canonical = reject_inv (not (equal written body)) authentication_failed _ h₄ in
      let h₅ = reject_then (not (equal written body)) authentication_failed _ h₄ in
      let (_, signed, h₆) =
        >>=-eq-ok (auth (verify ed authority scope Domain.certificate body signature)) _ h₅ in
      let free = reject_inv (taken c g) conflict _ h₆ in
      let last = reject_then (taken c g) conflict _ h₆ in
      let same : written ≡ body = (equal_iff written body).0 (ground (arith, canonical)) in
      (
        c,
        record {
          body = body;
          signature = signature;
          parted = parted;
          written = rw (← same) write;
          signed = auth_inv _ _ signed;
          group = (equal_iff c.group scope.group).0 (ground (arith, fits));
          epoch = ground (arith, fits);
          unrevoked = ground (arith, fits);
          begun = ground (arith, fits);
          lasting = ground (arith, fits);
        },
        free,
        ok-subst (λ x. x ≡ enrolled c encoded g) (enrolled c encoded g) g' last refl,
      )

  -- Claims that are written end within logical time, and so do those that hold now.
  pub Admitted-early :
      (encoded : List ℕ) (c : CertificateClaims) → Admitted encoded c → now < max_logical_time
  unfolding cert_body
  Admitted-early encoded c a =
      let fit = reject_inv (unfit_claims c) invalid_input _ a.written in
      ground (arith, fit, a.lasting)
