-- ===== src/Protocol/Enrollment/Requests.antt =====
-- What requests are accepted: those that are written canonically and signed.
use mesh_lab.Prelude.{
  ℕ, ◌≤◌, ◌<◌, ◌≡◌, ◌↔◌, ap, ◌∙◌, subst, false, ◌||◌, List, length, ltb, leb, ok, All, arith,
  >>=-eq-ok, ok-subst, reject_inv, reject_then,
}
use mesh_lab.Prelude.Ord.{equal_iff, bytes_ord}
use mesh_lab.Durable.{IsByte, invalid_input, authentication_failed, max_logical_time}
use mesh_lab.Crypto.{Ed25519, Domain, verify}
use mesh_lab.Protocol.Signed.{auth, time, signed, signed_parts}
use mesh_lab.Protocol.Signed.Parts.{signed_parts_inv, signed_parts-signed, length-signed, auth_inv}
use mesh_lab.Protocol.Enrollment.{
  EnrollmentRequest, unfit_enrollment, enrollment_body, read_enrollment, verify_enrollment_request,
  max_enrollment_request,
}
use mesh_lab.Protocol.Enrollment.Framing.{
  enrollment_body-written, read_enrollment_inv, length-written, read_enrollment-written, IsSized,
  fit_of, written,
}

-- An acceptable request at `now`: its arrays have their sizes, its epoch and its times are in range,
-- it names its signing key as the member, it holds now, and the bytes are its items under a signature
-- by that key.
pub record Accepts {Key : Type 0} (ed : Ed25519 Key) (bytes : List ℕ) (now : ℕ)
    (q : EnrollmentRequest) : Type 0 where
  pub signature : List ℕ
  pub sized : IsSized q
  pub some_epoch : 1 ≤ q.scope.epoch
  pub epoch : q.scope.epoch ≤ max_logical_time
  pub nonempty : q.valid_from < q.valid_until
  pub until : q.valid_until ≤ max_logical_time
  pub own_key : q.member.id ≡ q.signing_key
  pub enclosed : bytes ≡ signed (written q) signature
  pub tagged : length signature ≡ 64
  pub begun : q.valid_from ≤ now
  pub lasting : now < q.valid_until
  pub proven : verify ed q.signing_key q.scope Domain.enrollment (written q) signature ≡ ok tt

-- A request that `enrollment_body` writes names its signing key as the member.
fit-own_key : (q : EnrollmentRequest) → unfit_enrollment q ≡ false → q.member.id ≡ q.signing_key
fit-own_key q fit = (equal_iff q.member.id q.signing_key).0 (ground (arith, fit))

module _ {Key : Type 0} (ed : Ed25519 Key) (bytes : List ℕ) (now : ℕ) (q : EnrollmentRequest) where
  accepted-Accepts :
      All IsByte bytes → verify_enrollment_request ed bytes now ≡ ok q → Accepts ed bytes now q
  unfolding verify_enrollment_request time
  accepted-Accepts those h =
      let timely = reject_inv (ltb max_logical_time now) invalid_input _ h in
      let h₁ = reject_then (ltb max_logical_time now) invalid_input _ h in
      let ((body, signature), parted, h₂) =
        >>=-eq-ok (signed_parts bytes max_enrollment_request) _ h₁ in
      let (enclosed, tagged, _, _, inner) =
        signed_parts_inv bytes body signature max_enrollment_request those parted in
      let (p, read, h₃) = >>=-eq-ok (read_enrollment body) _ h₂ in
      let (split, sized) = read_enrollment_inv body p inner read in
      let (again, fit, h₄) = >>=-eq-ok (enrollment_body p) _ h₃ in
      let current =
        reject_inv (ltb now p.valid_from || leb p.valid_until now) authentication_failed _ h₄ in
      let h₅ =
        reject_then (ltb now p.valid_from || leb p.valid_until now) authentication_failed _ h₄ in
      let (u, proven, last) =
        >>=-eq-ok (auth (verify ed p.signing_key p.scope Domain.enrollment body signature)) _ h₅ in
      let fits = fit_of p again fit in
      ok-subst (Accepts ed bytes now) p q last (record {
        signature = signature;
        sized = sized;
        some_epoch = ground (arith, fits);
        epoch = ground (arith, fits);
        nonempty = ground (arith, fits);
        until = ground (arith, fits);
        own_key = fit-own_key p fits;
        enclosed = enclosed ∙ ap (λ b. signed b signature) split;
        tagged = tagged.sized;
        begun = ground (arith, current);
        lasting = ground (arith, current);
        proven =
            subst (λ b. verify ed p.signing_key p.scope Domain.enrollment b signature ≡ ok tt) split
              (auth_inv _ u proven);
      })

  pub Accepts-accepted : Accepts ed bytes now q → verify_enrollment_request ed bytes now ≡ ok q
  unfolding verify_enrollment_request time
  Accepts-accepted a =
      let body = written q in
      let same = (equal_iff q.member.id q.signing_key).1 a.own_key in
      let fit : unfit_enrollment q ≡ false =
        ground (arith, same, a.some_epoch, a.epoch, a.nonempty, a.until) in
      let framed : length (signed body a.signature) ≤ max_enrollment_request =
        omega (arith, length-signed body a.signature, a.tagged, length-written q a.sized) in
      let parted =
        signed_parts-signed body a.signature max_enrollment_request (omega arith) a.tagged framed in
      let read = read_enrollment-written q fit a.sized in
      rw (a.enclosed, parted, read, enrollment_body-written q fit, a.proven)
        (ground (arith, a.begun, a.lasting, a.until))

  -- A byte string is accepted as an enrolment request exactly if it is the request's canonical body
  -- under a signature by the very key that the request names as its member, the arrays have their
  -- sizes, the epoch is positive and both it and the end are in the range of logical time, the
  -- request begins before it ends, and it holds now.
  pub verify_enrollment_iff :
      All IsByte bytes → (verify_enrollment_request ed bytes now ≡ ok q) ↔ Accepts ed bytes now q
  verify_enrollment_iff those = (accepted-Accepts those, Accepts-accepted)
