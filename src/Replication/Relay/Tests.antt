-- ===== src/Replication/Relay/Tests.antt =====
-- A frame as its origin sends it, and a record that it carries.
use mesh_lab.Prelude.{ℕ, ◌≡◌, ◌↔◌, refl, List, [], ◌∷◌, ◌++◌, replicate, ok, arith}
use mesh_lab.Durable.{MemberId}
use mesh_lab.Codec.Words.{from_be}
use mesh_lab.Protocol.Record.{receipt}
use mesh_lab.Replication.Relay.{
  RelayFrame, RoutedRecord, encode_frame, decode_frame, encode_routed, decode_routed,
}
use mesh_lab.Replication.Relay.Framing.{HopsInRange, IsTypedFrame, decode_frame_iff}
use mesh_lab.Replication.Relay.Routed.{IsTypedRouted, decode_routed_iff}

abbrev pub member : ℕ → MemberId
member n = record { id = replicate 32 n }

abbrev pub frame_at : MemberId → ℕ → RelayFrame
frame_at previous hops = record {
  id = record { id = replicate 16 3 };
  origin = member 1;
  previous_hop = previous;
  hops = hops;
  hop_limit = 4;
  expires_at = 1000;
}

abbrev pub sent : RelayFrame
sent = frame_at (member 1) 0

abbrev pub passed_on : RelayFrame
passed_on = frame_at (member 2) 1

abbrev sent_bytes : List ℕ
sent_bytes =
    1
    ∷ (replicate 16 3
        ++ (replicate 32 1 ++ (replicate 32 1 ++ (0 ∷ 4 ∷ 0 ∷ 0 ∷ 0 ∷ 0 ∷ 0 ∷ 0 ∷ 3 ∷ 0xe8 ∷ []))))

sent_decoded : decode_frame sent_bytes ≡ ok sent
unfolding decode_frame from_be
sent_decoded = refl

decode_frame_iff_example :
    (decode_frame sent_bytes ≡ ok sent)
    ↔ ((sent_bytes ≡ encode_frame sent) × IsTypedFrame sent × HopsInRange sent)
decode_frame_iff_example = decode_frame_iff sent_bytes sent (omega arith)

abbrev routed : RoutedRecord
routed = record { frame = sent; durable_record = receipt (5 ∷ []) }

abbrev routed_bytes : List ℕ
routed_bytes = 0x72 ∷ 1 ∷ (sent_bytes ++ 0x6d ∷ 1 ∷ 3 ∷ 0 ∷ 1 ∷ 5 ∷ [])

decode_routed_iff_example :
    (decode_routed routed_bytes ≡ ok routed)
    ↔ ((encode_routed routed ≡ ok routed_bytes) × IsTypedRouted routed)
decode_routed_iff_example = decode_routed_iff routed_bytes routed (omega arith)
