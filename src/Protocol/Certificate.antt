-- ===== src/Protocol/Certificate.antt =====
-- crates/mesh-protocol/src/lib.rs: `CertificateClaims`, which an authority signs for a member.
use mesh_lab.Prelude.{ℕ, Bool, ◌||◌, List, ltb, leb, ok, ◌>>=◌, ◌>>◌, reject}
use mesh_lab.Durable.{Outcome, MemberId, invalid_input, max_logical_time}
use mesh_lab.Codec.{
  new_reader, array, uint, fixed, end, default_writer, write_array, write_uint, write_bytes, finish,
}
use mesh_lab.Crypto.{Ed25519, Domain, sign, identity_key_id}
use mesh_lab.Object.{outside}
use mesh_lab.Protocol.Signed.{auth, version, signed}

pub record CertificateClaims : Type 0 where
  pub group : List ℕ
  pub member : MemberId
  pub signing_key : List ℕ
  pub delivery_key : List ℕ
  pub valid_from : ℕ
  pub valid_until : ℕ
  pub epoch : ℕ
  pub serial : ℕ

abbrev pub unfit_claims : CertificateClaims → Bool
unfit_claims c =
    outside max_logical_time c.epoch
    || outside max_logical_time c.serial
    || leb c.valid_until c.valid_from
    || ltb max_logical_time c.valid_until

module _ (sha256 : List ℕ → List ℕ) where
  unfoldable pub cert_body : CertificateClaims → List ℕ → Outcome (List ℕ)
  unfolding write_array write_uint write_bytes finish
  cert_body c authority = do
    reject (unfit_claims c) invalid_input
    ok (
        finish (
          write_bytes (identity_key_id sha256 authority) (
            write_uint c.serial (
              write_uint c.epoch (
                write_uint c.valid_until (
                  write_uint c.valid_from (
                    write_bytes c.delivery_key (
                      write_bytes c.signing_key (
                        write_bytes c.member.id (
                          write_bytes c.group
                            (write_uint 1 (write_array 10 default_writer))))))))))))

  module _ {Key : Type 0} (ed : Ed25519 Key) where
    unfoldable pub issue_certificate : Key → CertificateClaims → Outcome (List ℕ)
    issue_certificate authority claims = do
      b ← cert_body claims (ed.verifying_key authority)
      signature ← auth (
          sign ed authority (record { group = claims.group; epoch = claims.epoch })
            Domain.certificate b)
      ok (signed b signature)

-- The claims of a body, with the identifier of the authority.
unfoldable pub read_claims : List ℕ → Outcome (CertificateClaims × List ℕ)
read_claims body = do
  r ← new_reader body 900
  (_, r₀) ← array 10 r
  (v, r₁) ← uint r₀
  _ ← version v
  (group, r₂) ← fixed 32 r₁
  (member, r₃) ← fixed 32 r₂
  (signing_key, r₄) ← fixed 32 r₃
  (delivery_key, r₅) ← fixed 32 r₄
  (valid_from, r₆) ← uint r₅
  (valid_until, r₇) ← uint r₆
  (epoch, r₈) ← uint r₇
  (serial, r₉) ← uint r₈
  (authority_id, r₁₀) ← fixed 32 r₉
  _ ← end r₁₀
  ok (
    record {
      group = group;
      member = record { id = member };
      signing_key = signing_key;
      delivery_key = delivery_key;
      valid_from = valid_from;
      valid_until = valid_until;
      epoch = epoch;
      serial = serial;
    },
    authority_id,
  )
