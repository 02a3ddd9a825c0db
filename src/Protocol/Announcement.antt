-- ===== src/Protocol/Announcement.antt =====
-- crates/mesh-protocol/src/lib.rs: `AuthenticatedAnnouncement`, the signed manifest of an object.
pub mod Authentic
mod Tests
use mesh_lab.Prelude.{ℕ, Bool, not, ◌||◌, List, [], ◌∷◌, ◌==◌, ok, ◌>>=◌, ◌>>◌, reject}
use mesh_lab.Prelude.Ord.{equal, bytes_ord}
use mesh_lab.Durable.{Outcome, MemberId, authentication_failed, max_manifest_bytes}
use mesh_lab.Codec.{new_reader, array, uint, byte_string, fixed, end}
use mesh_lab.Crypto.{Scope, Ed25519, Domain, verify}
use mesh_lab.Object
use mesh_lab.Object.{Manifest}
use mesh_lab.Protocol.Record.{max_announcement}
use mesh_lab.Protocol.Signed.{auth, version, signed_parts}
use mesh_lab.Protocol.Roster.{VerifiedRoster, validate_at, member_of, signing_key_of}

pub record AuthenticatedAnnouncement : Type 0 where
  pub manifest : Manifest
  pub encoded : List ℕ
  pub scope : Scope
  pub roster_digest : List ℕ

unfoldable pub validate_roster : AuthenticatedAnnouncement → VerifiedRoster → ℕ → Outcome (Unit {0})
validate_roster a roster now = do
  _ ← validate_at now roster
  reject (not (equal a.roster_digest roster.digest)) authentication_failed

-- The group and the manifest of a body.
unfoldable pub read_announcement : List ℕ → Outcome (List ℕ × Manifest)
read_announcement body = do
  r ← new_reader body max_announcement
  (_, r₀) ← array 3 r
  (v, r₁) ← uint r₀
  _ ← version v
  (group, r₂) ← fixed 32 r₁
  (packed, r₃) ← byte_string max_manifest_bytes r₂
  m ← Object.decode packed
  _ ← end r₃
  ok (group, m)

-- `for target in manifest.targets() { roster.member(*target)?; }`
unfoldable pub all_members : List MemberId → VerifiedRoster → Outcome (Unit {0})
all_members [] roster = ok tt
all_members (t ∷ ts) roster = do _ ← member_of t roster; all_members ts roster

module _ {Key : Type 0} (ed : Ed25519 Key) where
  unfoldable pub authenticate_announcement :
      List ℕ → VerifiedRoster → ℕ → Outcome AuthenticatedAnnouncement
  authenticate_announcement encoded roster now = do
    _ ← validate_at now roster
    (body, signature) ← signed_parts encoded max_announcement
    (group, m) ← read_announcement body
    reject (not (equal group roster.scope.group) || not (m.epoch == roster.scope.epoch))
        authentication_failed
    _ ← all_members m.targets roster
    key ← signing_key_of m.origin roster
    _ ← auth (verify ed key roster.scope Domain.object body signature)
    ok (record {
      manifest = m;
      encoded = encoded;
      scope = roster.scope;
      roster_digest = roster.digest;
    })
