-- ===== src/Protocol/Roster.antt =====
-- crates/mesh-protocol/src/lib.rs: `VerifiedRoster`, the certified members of a group.
pub mod Admission
pub mod Certified
mod Tests
use mesh_lab.Prelude.{
  ℕ, ◌+◌, Bool, not, ◌||◌, List, [], ◌∷◌, length, ltb, leb, ◌==◌, ok, err, ◌>>=◌, ◌>>◌, reject,
  ok_or, max, min, if◌then◌else◌,
}
use mesh_lab.Prelude.Ord.{equal, bytes_ord, nat_ord}
use mesh_lab.Prelude.OrdMap.{OrdMap, get, contains_key, insert}
use mesh_lab.Durable.{
  Outcome, MemberId, member_ord, invalid_input, authentication_failed, conflict, max_logical_time,
  max_group_members,
}
use mesh_lab.Codec.{Writer, default_writer, write_array, write_uint, write_bytes, finish}
use mesh_lab.Crypto.{Scope, Ed25519, Domain, verify, identity_key_id}
use mesh_lab.Object.{outside}
use mesh_lab.Protocol.Signed.{auth, time, domain_hash, signed_parts}
use mesh_lab.Protocol.Certificate.{CertificateClaims, cert_body, read_claims}

pub record VerifiedRoster : Type 0 where
  pub scope : Scope
  pub members : OrdMap MemberId CertificateClaims
  pub digest : List ℕ
  pub valid_from : ℕ
  pub valid_until : ℕ

-- `BTreeSet`: an ordered map without values.
abbrev pub OrdSet : Type 0 → Type 0
OrdSet K = OrdMap K (Unit {0})

-- `iter().copied().collect()`
abbrev pub collect : List ℕ → OrdSet ℕ
collect [] = []
collect (n ∷ ns) = insert n tt (collect ns)

-- The variables of the loop of `verify`.
pub record Roll : Type 0 where
  pub members : OrdMap MemberId CertificateClaims
  pub keys : OrdSet (List ℕ)
  pub delivery_keys : OrdSet (List ℕ)
  pub serials : OrdSet ℕ
  pub canonical : OrdMap MemberId (List ℕ)
  pub valid_from : ℕ
  pub valid_until : ℕ

abbrev pub empty_roll : Roll
empty_roll = record {
  members = [];
  keys = [];
  delivery_keys = [];
  serials = [];
  canonical = [];
  valid_from = 0;
  valid_until = max_logical_time;
}

-- One of the four insertions does not find its place free.
abbrev pub taken : CertificateClaims → Roll → Bool
taken c g =
    contains_key c.signing_key g.keys
    || contains_key c.delivery_key g.delivery_keys
    || contains_key c.serial g.serials
    || contains_key c.member g.members

abbrev pub enrolled : CertificateClaims → List ℕ → Roll → Roll
enrolled c encoded g = record {
  members = insert c.member c g.members;
  keys = insert c.signing_key tt g.keys;
  delivery_keys = insert c.delivery_key tt g.delivery_keys;
  serials = insert c.serial tt g.serials;
  canonical = insert c.member encoded g.canonical;
  valid_from = max g.valid_from c.valid_from;
  valid_until = min g.valid_until c.valid_until;
}

abbrev pub write_certificates : OrdMap MemberId (List ℕ) → Writer → Writer
write_certificates [] w = w
write_certificates ((m, certificate) ∷ cs) w = write_certificates cs (write_bytes certificate w)

abbrev pub write_serials : OrdSet ℕ → Writer → Writer
write_serials [] w = w
write_serials ((n, _) ∷ ns) w = write_serials ns (write_uint n w)

-- `b"MeshLab/Roster/v1\0"`
abbrev pub roster_domain : List ℕ
roster_domain =
    0x4d ∷ 0x65 ∷ 0x73 ∷ 0x68 ∷ 0x4c ∷ 0x61 ∷ 0x62 ∷ 0x2f ∷ 0x52 ∷ 0x6f ∷ 0x73 ∷ 0x74 ∷ 0x65 ∷ 0x72
    ∷ 0x2f ∷ 0x76 ∷ 0x31 ∷ 0x00 ∷ []

unfoldable pub roster_bytes : List ℕ → Scope → OrdMap MemberId (List ℕ) → OrdSet ℕ → List ℕ
unfolding write_array write_uint write_bytes finish
roster_bytes authority scope canonical revoked = finish (
    write_serials revoked (
      write_array (length revoked) (
        write_certificates canonical (
          write_array (length canonical) (
            write_uint scope.epoch
              (write_bytes scope.group (write_bytes authority (write_array 5 default_writer))))))))

abbrev pub unfit_request : Scope → List (List ℕ) → List ℕ → Bool
unfit_request scope certificates revoked =
    outside max_logical_time scope.epoch
    || outside max_group_members (length certificates)
    || ltb 1024 (length revoked)

module _ {Key : Type 0} (ed : Ed25519 Key) (sha256 : List ℕ → List ℕ) where
  -- The claims do not fit the authority, the scope, the revocations or the time.
  abbrev pub foreign : List ℕ → Scope → OrdSet ℕ → ℕ → CertificateClaims → List ℕ → Bool
  foreign authority scope revoked now c authority_id =
      not (equal authority_id (identity_key_id sha256 authority))
      || not (equal c.group scope.group)
      || not (c.epoch == scope.epoch)
      || contains_key c.serial revoked
      || ltb now c.valid_from
      || leb c.valid_until now

  -- One round of the loop.
  unfoldable pub admit : List ℕ → Scope → OrdSet ℕ → ℕ → List ℕ → Roll → Outcome Roll
  admit authority scope revoked now encoded g = do
    (body, signature) ← signed_parts encoded 1024
    (c, authority_id) ← read_claims body
    reject (foreign authority scope revoked now c authority_id) authentication_failed
    written ← cert_body sha256 c authority
    reject (not (equal written body)) authentication_failed
    _ ← auth (verify ed authority scope Domain.certificate body signature)
    reject (taken c g) conflict
    ok (enrolled c encoded g)

  unfoldable pub admit_all : List ℕ → Scope → OrdSet ℕ → ℕ → List (List ℕ) → Roll → Outcome Roll
  admit_all authority scope revoked now [] g = ok g
  admit_all authority scope revoked now (encoded ∷ rest) g = do
    g' ← admit authority scope revoked now encoded g
    admit_all authority scope revoked now rest g'

  unfoldable pub verify_roster :
      List ℕ → Scope → List (List ℕ) → List ℕ → ℕ → Outcome VerifiedRoster
  verify_roster authority scope certificates revoked_serials now = do
    _ ← time now
    reject (unfit_request scope certificates revoked_serials) invalid_input
    let revoked = collect revoked_serials
    g ← admit_all authority scope revoked now certificates empty_roll
    ok (record {
      scope = scope;
      members = g.members;
      digest = domain_hash sha256 roster_domain (roster_bytes authority scope g.canonical revoked);
      valid_from = g.valid_from;
      valid_until = g.valid_until;
    })

unfoldable pub validate_at : ℕ → VerifiedRoster → Outcome (Unit {0})
unfolding time
validate_at now roster = do
  _ ← time now
  reject (ltb now roster.valid_from || leb roster.valid_until now) authentication_failed

unfoldable pub member_of : MemberId → VerifiedRoster → Outcome CertificateClaims
member_of id roster = ok_or (get id roster.members) authentication_failed

unfoldable pub signing_key_of : MemberId → VerifiedRoster → Outcome (List ℕ)
unfolding member_of
signing_key_of id roster = do c ← member_of id roster; ok c.signing_key

pub contains_member : MemberId → VerifiedRoster → Bool
contains_member id roster = contains_key id roster.members
