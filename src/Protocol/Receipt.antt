-- ===== src/Protocol/Receipt.antt =====
-- crates/mesh-protocol/src/lib.rs: receipts, as a relay reads them.
pub mod Framing
use mesh_lab.Prelude.{ℕ, ◌||◌, not, List, ltb, ok, ◌>>=◌, reject}
use mesh_lab.Prelude.Ord.{equal, bytes_ord}
use mesh_lab.Durable.{Outcome, MemberId, ObjectId, authentication_failed}
use mesh_lab.Codec.{
  new_reader, array, uint, fixed, end, default_writer, write_array, write_uint, write_bytes, finish,
}
use mesh_lab.Crypto.{Scope}
use mesh_lab.Protocol.Signed.{version, signed_parts}
use mesh_lab.Protocol.ReceiptAck.{max_receipt}
use mesh_lab.Protocol.Roster.{VerifiedRoster, validate_at}

unfoldable pub receipt_body : Scope → List ℕ → ObjectId → MemberId → ℕ → MemberId → ℕ → List ℕ
unfolding write_array write_uint write_bytes finish
receipt_body scope context_id id origin sequence actor at_time = finish (
    write_uint at_time (
      write_bytes actor.id (
        write_uint sequence (
          write_bytes origin.id (
            write_bytes id.id (
              write_bytes context_id (
                write_uint scope.epoch (
                  write_bytes scope.group
                    (write_uint 1 (write_uint 1 (write_array 10 default_writer)))))))))))

pub record ReceiptRoute : Type 0 where
  pub object : ObjectId
  pub actor : MemberId

-- The fields of a body that route it.
unfoldable pub read_route : List ℕ → Outcome ReceiptRoute
read_route body = do
  r ← new_reader body max_receipt
  (_, r₀) ← array 10 r
  (v, r₁) ← uint r₀
  _ ← version v
  (w, r₂) ← uint r₁
  _ ← version w
  (_, r₃) ← fixed 32 r₂
  (_, r₄) ← uint r₃
  (_, r₅) ← fixed 32 r₄
  (object, r₆) ← fixed 32 r₅
  (_, r₇) ← fixed 32 r₆
  (_, r₈) ← uint r₇
  (actor, r₉) ← fixed 32 r₈
  (_, r₁₀) ← uint r₉
  _ ← end r₁₀
  ok (record { object = record { id = object }; actor = record { id = actor } })

unfoldable pub receipt_route : List ℕ → Outcome ReceiptRoute
receipt_route encoded = do (body, _) ← signed_parts encoded max_receipt; read_route body
