-- ===== src/Protocol/ReceiptAck/Tests.antt =====
-- The origin of an object acknowledges a receipt.
use mesh_lab.Prelude.{ℕ, ◌≡◌, ◌↔◌, refl, List, [], ◌∷◌, ◌++◌, replicate, some, ok, All, arith}
use mesh_lab.Prelude.OrdMap.{get}
use mesh_lab.Durable.{IsByte, member_ord}
use mesh_lab.Codec.{head, head_bytes, write_array, write_uint, write_bytes, finish}
use mesh_lab.Codec.Words.{be_bytes}
use mesh_lab.Crypto.{signature_input, prefix, sign}
use mesh_lab.Crypto.Toy.{toy, toy-IsEd25519}
use mesh_lab.Protocol.Example.{claims, member, roster}
use mesh_lab.Protocol.Signed.{signed, time}
use mesh_lab.Protocol.ReceiptAck.{
  VerifiedReceiptAck, receipt_ack_body, issue_receipt_ack, verify_receipt_ack,
}
use mesh_lab.Protocol.ReceiptAck.Issued.{issued_acknowledged}
use mesh_lab.Protocol.ReceiptAck.Acknowledged.{Acknowledges, verify_receipt_ack_iff}

abbrev acknowledged : VerifiedReceiptAck
acknowledged = record {
  route = record {
    receipt_id = replicate 32 6;
    object = record { id = replicate 32 9 };
    origin = member;
    actor = record { id = replicate 32 2 };
  };
  at_time = 40;
}

abbrev ack_bytes : List ℕ
ack_bytes =
    0x82
    ∷ 0x58
    ∷ 176
    ∷ (0x89
        ∷ 1
        ∷ 1
        ∷ 0x58
        ∷ 32
        ∷ (replicate 32 8
            ++ (1
                ∷ 0x58
                ∷ 32
                ∷ (replicate 32 6
                    ++ (0x58
                        ∷ 32
                        ∷ (replicate 32 9
                            ++ (0x58
                                ∷ 32
                                ∷ (replicate 32 1
                                    ++ (0x58
                                        ∷ 32
                                        ∷ (replicate 32 2
                                            ++ (0x18 ∷ 40 ∷ 0x58 ∷ 64 ∷ replicate 64 1)))))))))))

issued :
    issue_receipt_ack toy
      (λ b. replicate 32 6)
      (5 ∷ [])
      (record { id = replicate 32 9 })
      member
      (record { id = replicate 32 2 })
      roster.scope
      1
      40
    ≡ ok ack_bytes
unfolding issue_receipt_ack time receipt_ack_body sign signature_input prefix signed be_bytes head
    head_bytes write_array write_uint write_bytes finish
issued = refl

ack_bytes-IsByte : All IsByte ack_bytes
ack_bytes-IsByte = omega arith

verify_receipt_ack_iff_example :
    (verify_receipt_ack toy ack_bytes roster 50 ≡ ok acknowledged)
    ↔ Acknowledges toy ack_bytes roster 50 acknowledged
verify_receipt_ack_iff_example =
    verify_receipt_ack_iff toy ack_bytes roster 50 acknowledged ack_bytes-IsByte

certified : get member roster.members ≡ some claims
unfolding get
certified = refl

issued_acknowledged_example : verify_receipt_ack toy ack_bytes roster 50 ≡ ok acknowledged
issued_acknowledged_example =
    issued_acknowledged toy (λ b. replicate 32 6) (5 ∷ []) (record { id = replicate 32 9 }) member
      (record { id = replicate 32 2 }) roster 1 claims ack_bytes 40 50 toy-IsEd25519 refl refl refl
      refl (omega arith) issued certified refl (omega arith) (omega arith) (omega arith)
      (omega arith) (omega arith) (omega arith)
