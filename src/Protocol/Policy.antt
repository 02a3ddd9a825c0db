-- ===== src/Protocol/Policy.antt =====
-- crates/mesh-protocol/src/lib.rs: `PolicyBundle`, in which the certificates of a roster travel.
pub mod Framing
mod Tests
use mesh_lab.Prelude.{
  ℕ, ◌*◌, Bool, not, ◌||◌, List, [], ◌∷◌, length, any, ltb, leb, ◌==◌, ok, ◌>>=◌, ◌>>◌, reject,
}
use mesh_lab.Durable.{
  Outcome, invalid_input, resource_pressure, max_logical_time, max_group_members,
}
use mesh_lab.Codec.{
  Reader, Writer, new_reader, array, count, uint, fixed, byte_string, end, default_writer,
  write_array, write_uint, write_bytes, finish,
}
use mesh_lab.Codec.Each.{read_each, write_each}
use mesh_lab.Crypto.{Scope, Ed25519}
use mesh_lab.Object.{outside}
use mesh_lab.Protocol.Signed.{version}
use mesh_lab.Protocol.Roster.{VerifiedRoster, verify_roster}

abbrev pub max_policy_bundle : ℕ
max_policy_bundle = 64 * 1024

pub record PolicyBundle : Type 0 where
  pub authority : List ℕ
  pub scope : Scope
  pub certificates : List (List ℕ)
  pub revoked : List ℕ

abbrev pub unfit_bundle : PolicyBundle → Bool
unfit_bundle b =
    outside max_logical_time b.scope.epoch
    || outside max_group_members (length b.certificates)
    || any (λ c. outside 1024 (length c)) b.certificates
    || ltb 1024 (length b.revoked)
    || any (outside max_logical_time) b.revoked

unfoldable pub bundle_bytes : PolicyBundle → List ℕ
unfolding write_array write_uint write_bytes finish
bundle_bytes b = finish (
    write_each write_uint b.revoked (
      write_array (length b.revoked) (
        write_each write_bytes b.certificates (
          write_array (length b.certificates) (
            write_uint b.scope.epoch (
              write_bytes b.scope.group
                (write_bytes b.authority (write_uint 1 (write_array 6 default_writer)))))))))

unfoldable pub encode_bundle : PolicyBundle → Outcome (List ℕ)
encode_bundle b = do
  reject (unfit_bundle b) invalid_input
  reject (ltb max_policy_bundle (length (bundle_bytes b))) resource_pressure
  ok (bundle_bytes b)

unfoldable pub read_bundle : List ℕ → Outcome PolicyBundle
read_bundle bytes = do
  r ← new_reader bytes max_policy_bundle
  (_, r₀) ← array 6 r
  (v, r₁) ← uint r₀
  _ ← version v
  (authority, r₂) ← fixed 32 r₁
  (group, r₃) ← fixed 32 r₂
  (epoch, r₄) ← uint r₃
  (certificate_count, r₅) ← count max_group_members r₄
  (certificates, r₆) ← read_each (byte_string 1024) certificate_count r₅
  (revoked_count, r₇) ← count 1024 r₆
  (revoked, r₈) ← read_each uint revoked_count r₇
  _ ← end r₈
  ok (record {
    authority = authority;
    scope = record { group = group; epoch = epoch };
    certificates = certificates;
    revoked = revoked;
  })

unfoldable pub decode_bundle : List ℕ → Outcome PolicyBundle
decode_bundle bytes = do b ← read_bundle bytes; _ ← encode_bundle b; ok b

module _ {Key : Type 0} (ed : Ed25519 Key) (sha256 : List ℕ → List ℕ) where
  unfoldable pub verify_bundle : PolicyBundle → ℕ → Outcome VerifiedRoster
  verify_bundle b now = verify_roster ed sha256 b.authority b.scope b.certificates b.revoked now
