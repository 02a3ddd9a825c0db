-- ===== src/Protocol/Handoff.antt =====
-- crates/mesh-protocol/src/lib.rs: `AuthorityHandoff`, by which an authority names its successor.
pub mod Body
pub mod Framing
pub mod Succession
mod Tests
use mesh_lab.Prelude.{
  ℕ, ◌+◌, Bool, not, ◌||◌, List, length, replicate, ltb, leb, ◌==◌, ok, ◌>>=◌, ◌>>◌, reject, ok_or,
}
use mesh_lab.Prelude.Ord.{equal, bytes_ord}
use mesh_lab.Durable.{
  Outcome, invalid_input, authentication_failed, resource_pressure, max_logical_time,
}
use mesh_lab.Codec.{
  new_reader, array, uint, fixed, end, default_writer, write_array, write_uint, write_bytes, finish,
  checked_add,
}
use mesh_lab.Crypto.{Scope, Ed25519, Domain, sign, verify}
use mesh_lab.Object.{outside}
use mesh_lab.Protocol.Signed.{auth, version, time, signed, signed_parts}

abbrev pub max_authority_handoff : ℕ
max_authority_handoff = 512

pub record AuthorityHandoff : Type 0 where
  pub prior_authority : List ℕ
  pub prior_scope : Scope
  pub prior_roster_digest : List ℕ
  pub next_authority : List ℕ
  pub next_epoch : ℕ
  pub valid_until : ℕ
  pub signature : List ℕ

unfoldable pub handoff_body : AuthorityHandoff → Outcome (List ℕ)
unfolding write_array write_uint write_bytes finish
handoff_body h = do
  reject (outside max_logical_time h.prior_scope.epoch) invalid_input
  next ← ok_or (checked_add h.prior_scope.epoch 1) invalid_input
  reject
      (not (h.next_epoch == next)
        || outside max_logical_time h.valid_until
        || equal h.next_authority h.prior_authority)
      invalid_input
  ok (
      finish (
        write_uint h.valid_until (
          write_uint h.next_epoch (
            write_bytes h.next_authority (
              write_bytes h.prior_roster_digest (
                write_uint h.prior_scope.epoch (
                  write_bytes h.prior_scope.group (
                    write_bytes h.prior_authority
                      (write_uint 1 (write_array 8 default_writer))))))))))

unfoldable pub encode_handoff : AuthorityHandoff → Outcome (List ℕ)
encode_handoff h = do
  body ← handoff_body h
  reject (ltb max_authority_handoff (length (signed body h.signature))) resource_pressure
  ok (signed body h.signature)

unfoldable pub read_handoff : List ℕ → List ℕ → Outcome AuthorityHandoff
read_handoff body signature = do
  r ← new_reader body max_authority_handoff
  (_, r₀) ← array 8 r
  (v, r₁) ← uint r₀
  _ ← version v
  (prior_authority, r₂) ← fixed 32 r₁
  (group, r₃) ← fixed 32 r₂
  (epoch, r₄) ← uint r₃
  (prior_roster_digest, r₅) ← fixed 32 r₄
  (next_authority, r₆) ← fixed 32 r₅
  (next_epoch, r₇) ← uint r₆
  (valid_until, r₈) ← uint r₇
  _ ← end r₈
  ok (record {
    prior_authority = prior_authority;
    prior_scope = record { group = group; epoch = epoch };
    prior_roster_digest = prior_roster_digest;
    next_authority = next_authority;
    next_epoch = next_epoch;
    valid_until = valid_until;
    signature = signature;
  })

unfoldable pub decode_handoff : List ℕ → Outcome AuthorityHandoff
decode_handoff bytes = do
  (body, signature) ← signed_parts bytes max_authority_handoff
  h ← read_handoff body signature
  _ ← encode_handoff h
  ok h

-- The handoff is over, or it is for another policy.
abbrev pub out_of_place : AuthorityHandoff → List ℕ → Scope → List ℕ → ℕ → Bool
out_of_place h authority scope roster_digest now =
    leb h.valid_until now
    || not (equal h.prior_authority authority)
    || not (equal h.prior_scope.group scope.group)
    || not (h.prior_scope.epoch == scope.epoch)
    || not (equal h.prior_roster_digest roster_digest)

module _ {Key : Type 0} (ed : Ed25519 Key) where
  unfoldable pub verify_for : AuthorityHandoff → List ℕ → Scope → List ℕ → ℕ → Outcome (Unit {0})
  verify_for h authority scope roster_digest now = do
    _ ← time now
    reject (out_of_place h authority scope roster_digest now) authentication_failed
    body ← handoff_body h
    auth (verify ed authority scope Domain.transition body h.signature)

  unfoldable pub issue_authority_handoff :
      Key → Scope → List ℕ → List ℕ → ℕ → Outcome AuthorityHandoff
  issue_authority_handoff authority scope roster_digest next_authority valid_until = do
    next_epoch ← ok_or (checked_add scope.epoch 1) invalid_input
    let handoff : AuthorityHandoff = record {
      prior_authority = ed.verifying_key authority;
      prior_scope = scope;
      prior_roster_digest = roster_digest;
      next_authority = next_authority;
      next_epoch = next_epoch;
      valid_until = valid_until;
      signature = replicate 64 0;
    }
    body ← handoff_body handoff
    signature ← auth (sign ed authority scope Domain.transition body)
    ok (record handoff { signature = signature })
