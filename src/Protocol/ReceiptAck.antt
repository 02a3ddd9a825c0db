-- ===== src/Protocol/ReceiptAck.antt =====
-- crates/mesh-protocol/src/lib.rs: receipt acknowledgements, by which the origin of an object says
-- that it has a receipt.
pub mod Framing
pub mod Acknowledged
pub mod Issued
mod Tests
use mesh_lab.Prelude.{
  ℕ, Bool, not, ◌||◌, List, length, ltb, leb, ◌==◌, Result, ok, err, ◌>>=◌, ◌>>◌, reject,
}
use mesh_lab.Prelude.Ord.{equal, bytes_ord}
use mesh_lab.Durable.{Outcome, MemberId, ObjectId, invalid_receipt}
use mesh_lab.Codec.{
  new_reader, array, uint, fixed, end, default_writer, write_array, write_uint, write_bytes, finish,
}
use mesh_lab.Crypto.{Scope, Ed25519, Domain, CryptoError, sign, verify}
use mesh_lab.Object.{outside}
use mesh_lab.Protocol.Signed.{auth, version, time, signed, signed_parts}
use mesh_lab.Protocol.Certificate.{CertificateClaims}
use mesh_lab.Protocol.Roster.{VerifiedRoster, validate_at, member_of}

abbrev pub max_receipt : ℕ
max_receipt = 1024

abbrev pub max_receipt_ack : ℕ
max_receipt_ack = 1024

pub record ReceiptAckRoute : Type 0 where
  pub receipt_id : List ℕ
  pub object : ObjectId
  pub origin : MemberId
  pub actor : MemberId

pub record VerifiedReceiptAck : Type 0 where
  pub route : ReceiptAckRoute
  pub at_time : ℕ

unfoldable pub receipt_ack_body : Scope → ReceiptAckRoute → ℕ → List ℕ
unfolding write_array write_uint write_bytes finish
receipt_ack_body scope q at_time = finish (
    write_uint at_time (
      write_bytes q.actor.id (
        write_bytes q.origin.id (
          write_bytes q.object.id (
            write_bytes q.receipt_id (
              write_uint scope.epoch (
                write_bytes scope.group
                  (write_uint 1 (write_uint 1 (write_array 9 default_writer))))))))))

-- The fields of a body.
unfoldable pub read_ack : List ℕ → Outcome (ReceiptAckRoute × Scope × ℕ)
read_ack body = do
  r ← new_reader body max_receipt_ack
  (_, r₀) ← array 9 r
  (v, r₁) ← uint r₀
  _ ← version v
  (w, r₂) ← uint r₁
  _ ← version w
  (group, r₃) ← fixed 32 r₂
  (epoch, r₄) ← uint r₃
  (receipt_id, r₅) ← fixed 32 r₄
  (object, r₆) ← fixed 32 r₅
  (origin, r₇) ← fixed 32 r₆
  (actor, r₈) ← fixed 32 r₇
  (at_time, r₉) ← uint r₈
  _ ← end r₉
  ok (
    record {
      receipt_id = receipt_id;
      object = record { id = object };
      origin = record { id = origin };
      actor = record { id = actor };
    },
    record { group = group; epoch = epoch },
    at_time,
  )

abbrev pub AckParts : Type 0
AckParts = (ReceiptAckRoute × Scope × ℕ) × List ℕ × List ℕ

unfoldable pub receipt_ack_parts : List ℕ → Outcome AckParts
receipt_ack_parts encoded = do
  (body, signature) ← signed_parts encoded max_receipt_ack
  t ← read_ack body
  ok (t, body, signature)

unfoldable pub receipt_ack_route : List ℕ → Outcome ReceiptAckRoute
receipt_ack_route encoded = do (t, _, _) ← receipt_ack_parts encoded; ok t.0

-- `map_err(|_| DurableError::InvalidReceipt)`
abbrev pub receipt_auth : Result CryptoError (Unit {0}) → Outcome (Unit {0})
receipt_auth (ok u) = ok u
receipt_auth (err e) = err invalid_receipt

-- The acknowledgement is of another scope, or not of a time between the roster's start and now.
abbrev pub untimely : Scope → VerifiedRoster → ℕ → ℕ → Bool
untimely scope roster at_time now =
    not (equal scope.group roster.scope.group)
    || not (scope.epoch == roster.scope.epoch)
    || ltb now at_time
    || ltb at_time roster.valid_from
    || leb roster.valid_until at_time

abbrev pub uncertified : CertificateClaims → ℕ → Bool
uncertified c at_time = ltb at_time c.valid_from || leb c.valid_until at_time

module _ {Key : Type 0} (ed : Ed25519 Key) where
  unfoldable pub issue_receipt_ack :
      (List ℕ → List ℕ)
      → List ℕ
      → ObjectId
      → MemberId
      → MemberId
      → Scope
      → Key
      → ℕ
      → Outcome (List ℕ)
  issue_receipt_ack sha256 proof object origin actor scope signer now = do
    _ ← time now
    reject (outside max_receipt (length proof) || not (equal (ed.verifying_key signer) origin.id))
        invalid_receipt
    let route : ReceiptAckRoute = record {
      receipt_id = sha256 proof;
      object = object;
      origin = origin;
      actor = actor;
    }
    let body = receipt_ack_body scope route now
    signature ← auth (sign ed signer scope Domain.receipt_ack body)
    ok (signed body signature)

  unfoldable pub verify_receipt_ack : List ℕ → VerifiedRoster → ℕ → Outcome VerifiedReceiptAck
  verify_receipt_ack encoded roster now = do
    _ ← validate_at now roster
    ((route, scope, at_time), body, signature) ← receipt_ack_parts encoded
    reject (untimely scope roster at_time now) invalid_receipt
    cert ← member_of route.origin roster
    reject (uncertified cert at_time) invalid_receipt
    _ ← receipt_auth (verify ed cert.signing_key scope Domain.receipt_ack body signature)
    ok (record { route = route; at_time = at_time })
