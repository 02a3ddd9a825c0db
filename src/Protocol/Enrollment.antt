-- ===== src/Protocol/Enrollment.antt =====
-- crates/mesh-protocol/src/lib.rs: `EnrollmentRequest`, by which a device proves that it has its keys.
pub mod Framing
pub mod Requests
pub mod Created
mod Tests
use mesh_lab.Prelude.{
  ℕ, Bool, not, ◌||◌, List, Option, ltb, leb, ◌==◌, ok, ◌>>=◌, ◌>>◌, reject, ok_or,
}
use mesh_lab.Prelude.Ord.{equal, bytes_ord}
use mesh_lab.Durable.{
  Outcome, MemberId, invalid_input, authentication_failed, crypto_unavailable, max_logical_time,
}
use mesh_lab.Codec.{
  new_reader, array, uint, fixed, end, default_writer, write_array, write_uint, write_bytes, finish,
}
use mesh_lab.Crypto.{Scope, Ed25519, Domain, sign, verify}
use mesh_lab.Object.{outside}
use mesh_lab.Protocol.Signed.{auth, version, time, signed, signed_parts}

abbrev pub max_enrollment_request : ℕ
max_enrollment_request = 512

pub record EnrollmentRequest : Type 0 where
  pub scope : Scope
  pub member : MemberId
  pub signing_key : List ℕ
  pub delivery_key : List ℕ
  pub valid_from : ℕ
  pub valid_until : ℕ
  pub nonce : List ℕ

abbrev pub unfit_enrollment : EnrollmentRequest → Bool
unfit_enrollment q =
    outside max_logical_time q.scope.epoch
    || leb q.valid_until q.valid_from
    || ltb max_logical_time q.valid_until
    || not (equal q.member.id q.signing_key)

unfoldable pub enrollment_body : EnrollmentRequest → Outcome (List ℕ)
unfolding write_array write_uint write_bytes finish
enrollment_body q = do
  reject (unfit_enrollment q) invalid_input
  ok (
      finish (
        write_bytes q.nonce (
          write_uint q.valid_until (
            write_uint q.valid_from (
              write_bytes q.delivery_key (
                write_bytes q.signing_key (
                  write_bytes q.member.id (
                    write_uint q.scope.epoch (
                      write_bytes q.scope.group
                        (write_uint 1 (write_array 9 default_writer)))))))))))

unfoldable pub read_enrollment : List ℕ → Outcome EnrollmentRequest
read_enrollment body = do
  r ← new_reader body max_enrollment_request
  (_, r₀) ← array 9 r
  (v, r₁) ← uint r₀
  _ ← version v
  (group, r₂) ← fixed 32 r₁
  (epoch, r₃) ← uint r₂
  (member, r₄) ← fixed 32 r₃
  (signing_key, r₅) ← fixed 32 r₄
  (delivery_key, r₆) ← fixed 32 r₅
  (valid_from, r₇) ← uint r₆
  (valid_until, r₈) ← uint r₇
  (nonce, r₉) ← fixed 16 r₈
  _ ← end r₉
  ok (record {
    scope = record { group = group; epoch = epoch };
    member = record { id = member };
    signing_key = signing_key;
    delivery_key = delivery_key;
    valid_from = valid_from;
    valid_until = valid_until;
    nonce = nonce;
  })

module _ {Key : Type 0} (ed : Ed25519 Key) where
  -- The nonce is what the random source filled in, if it did; the delivery key is the secret's public
  -- key.
  unfoldable pub create_enrollment_request :
      Key → List ℕ → Scope → ℕ → ℕ → Option (List ℕ) → Outcome (List ℕ)
  create_enrollment_request signer delivery scope valid_from valid_until random = do
    nonce ← ok_or random crypto_unavailable
    let signing_key = ed.verifying_key signer
    let request : EnrollmentRequest = record {
      scope = scope;
      member = record { id = signing_key };
      signing_key = signing_key;
      delivery_key = delivery;
      valid_from = valid_from;
      valid_until = valid_until;
      nonce = nonce;
    }
    body ← enrollment_body request
    signature ← auth (sign ed signer scope Domain.enrollment body)
    ok (signed body signature)

  unfoldable pub verify_enrollment_request : List ℕ → ℕ → Outcome EnrollmentRequest
  verify_enrollment_request bytes now = do
    _ ← time now
    (body, signature) ← signed_parts bytes max_enrollment_request
    request ← read_enrollment body
    _ ← enrollment_body request
    reject (ltb now request.valid_from || leb request.valid_until now) authentication_failed
    _ ← auth (verify ed request.signing_key request.scope Domain.enrollment body signature)
    ok request
