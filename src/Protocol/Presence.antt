-- ===== src/Protocol/Presence.antt =====
-- crates/mesh-protocol/src/lib.rs: `PresenceRecord`, by which a member says that it is there.
pub mod Framing
pub mod Claims
pub mod Attested
mod Tests
use mesh_lab.Prelude.{ℕ, Bool, not, ◌||◌, List, ltb, leb, ◌==◌, ok, ◌>>=◌, ◌>>◌, reject}
use mesh_lab.Prelude.Ord.{equal, bytes_ord}
use mesh_lab.Durable.{Outcome, MemberId, invalid_input, authentication_failed, max_logical_time}
use mesh_lab.Codec.{
  new_reader, array, uint, fixed, end, default_writer, write_array, write_uint, write_bytes, finish,
}
use mesh_lab.Crypto.{Scope, Ed25519, Domain, sign, verify}
use mesh_lab.Object.{outside}
use mesh_lab.Protocol.Signed.{auth, version, signed, signed_parts}
use mesh_lab.Protocol.Roster.{VerifiedRoster, validate_at, signing_key_of}

abbrev pub max_presence_claim : ℕ
max_presence_claim = 256

pub record PresenceRecord : Type 0 where
  pub member : MemberId
  pub incarnation : ℕ
  pub sequence : ℕ
  pub expires_at : ℕ

abbrev pub unfit_presence : Scope → PresenceRecord → Bool
unfit_presence scope q =
    outside max_logical_time scope.epoch
    || outside max_logical_time q.incarnation
    || outside max_logical_time q.sequence
    || outside max_logical_time q.expires_at

unfoldable pub presence_body : Scope → PresenceRecord → Outcome (List ℕ)
unfolding write_array write_uint write_bytes finish
presence_body scope q = do
  reject (unfit_presence scope q) invalid_input
  ok (
      finish (
        write_uint q.expires_at (
          write_uint q.sequence (
            write_uint q.incarnation (
              write_bytes q.member.id (
                write_uint scope.epoch
                  (write_bytes scope.group (write_uint 1 (write_array 7 default_writer)))))))))

-- The scope and the record of a body.
unfoldable pub read_presence : List ℕ → Outcome (Scope × PresenceRecord)
read_presence body = do
  r ← new_reader body max_presence_claim
  (_, r₀) ← array 7 r
  (v, r₁) ← uint r₀
  _ ← version v
  (group, r₂) ← fixed 32 r₁
  (epoch, r₃) ← uint r₂
  (member, r₄) ← fixed 32 r₃
  (incarnation, r₅) ← uint r₄
  (sequence, r₆) ← uint r₅
  (expires_at, r₇) ← uint r₆
  _ ← end r₇
  ok (
    record { group = group; epoch = epoch },
    record {
      member = record { id = member };
      incarnation = incarnation;
      sequence = sequence;
      expires_at = expires_at;
    },
  )

-- The record is for another scope, or its time is over.
abbrev pub lapsed : Scope → Scope → PresenceRecord → ℕ → Bool
lapsed scope own q now =
    not (equal scope.group own.group) || not (scope.epoch == own.epoch) || leb q.expires_at now

module _ {Key : Type 0} (ed : Ed25519 Key) where
  unfoldable pub sign_presence : Key → PresenceRecord → VerifiedRoster → ℕ → Outcome (List ℕ)
  sign_presence signer q roster now = do
    _ ← validate_at now roster
    key ← signing_key_of q.member roster
    reject
        (not (equal key (ed.verifying_key signer))
          || leb q.expires_at now
          || ltb roster.valid_until q.expires_at)
        authentication_failed
    body ← presence_body roster.scope q
    signature ← auth (sign ed signer roster.scope Domain.presence body)
    ok (signed body signature)

  unfoldable pub authenticate_presence : List ℕ → VerifiedRoster → ℕ → Outcome PresenceRecord
  authenticate_presence encoded roster now = do
    _ ← validate_at now roster
    (body, signature) ← signed_parts encoded max_presence_claim
    (scope, q) ← read_presence body
    reject (lapsed scope roster.scope q now) authentication_failed
    canonical ← presence_body roster.scope q
    reject (not (equal canonical body)) invalid_input
    key ← signing_key_of q.member roster
    _ ← auth (verify ed key roster.scope Domain.presence body signature)
    ok q
