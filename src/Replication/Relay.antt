-- ===== src/Replication/Relay.antt =====
-- crates/mesh-replication/src/lib.rs: the relay frame, the routed record and the relay cache.
pub mod Framing
pub mod Routed
pub mod Cache
mod Tests
use mesh_lab.Prelude.{
  ℕ, ◌+◌, ◌-◌, ◌^◌, Bool, not, ◌&&◌, ◌||◌, List, [], ◌∷◌, ◌++◌, Option, some, none, length, get_or,
  take, drop, ltb, leb, ◌==◌, if◌then◌else◌, Result, ok, err, ◌>>=◌, ◌>>◌, reject,
}
use Prim.Native.Nat.Ordering.{eq}
use mesh_lab.Prelude.{◌≡◌, ap, arith}
use mesh_lab.Prelude.Ord.{
  Ord, equal, first, cmp_bytes, cmp_bytes-flip, cmp_bytes-eq, cmp_bytes_trans, flip,
}
use mesh_lab.Prelude.OrdMap.{OrdMap, get, contains_key, insert, remove, retain}
use mesh_lab.Durable.{DurableError, Outcome, MemberId, member_ord, invalid_input, max_logical_time}
use mesh_lab.Codec.Words.{be_bytes, from_be}
use mesh_lab.Protocol.Record.{DurableRecord, max_durable_record}
use mesh_lab.Protocol.Record as Record

abbrev pub max_relay_hops : ℕ
max_relay_hops = 16

abbrev pub max_relay_dedup : ℕ
max_relay_dedup = 512

abbrev pub relay_frame_bytes : ℕ
relay_frame_bytes = 91

abbrev pub relay_frame_version : ℕ
relay_frame_version = 1

abbrev pub routed_record_magic : ℕ
routed_record_magic = 0x72

abbrev pub routed_record_version : ℕ
routed_record_version = 1

abbrev pub max_routed_record : ℕ
max_routed_record = 2 + relay_frame_bytes + max_durable_record

pub record RelayId : Type 0 where
  pub id : List ℕ

pub record RelayFrame : Type 0 where
  pub id : RelayId
  pub origin : MemberId
  pub previous_hop : MemberId
  pub hops : ℕ
  pub hop_limit : ℕ
  pub expires_at : ℕ

-- The fields one after the other fill the 91 bytes.
unfoldable pub encode_frame : RelayFrame → List ℕ
encode_frame f =
    relay_frame_version
    ∷ (f.id.id
        ++ (f.origin.id ++ (f.previous_hop.id ++ (f.hops ∷ f.hop_limit ∷ be_bytes 8 f.expires_at))))

-- `&bytes[start..stop]`, behind a check of the length.
abbrev pub range : List ℕ → ℕ → ℕ → List ℕ
range bytes start stop = take (stop - start) (drop start bytes)

abbrev frame_of : List ℕ → RelayFrame
frame_of bytes = record {
  id = record { id = range bytes 1 17 };
  origin = record { id = range bytes 17 49 };
  previous_hop = record { id = range bytes 49 81 };
  hops = get_or bytes 81 0;
  hop_limit = get_or bytes 82 0;
  expires_at = from_be 0 (range bytes 83 91);
}

unfoldable pub decode_frame : List ℕ → Outcome RelayFrame
decode_frame bytes = do
  reject (not (length bytes == relay_frame_bytes) || not (get_or bytes 0 0 == relay_frame_version))
      invalid_input
  let frame = frame_of bytes
  reject
      (frame.hop_limit == 0
        || ltb max_relay_hops frame.hop_limit
        || ltb frame.hop_limit frame.hops
        || ltb max_logical_time frame.expires_at)
      invalid_input
  ok frame

pub record RoutedRecord : Type 0 where
  pub frame : RelayFrame
  pub durable_record : DurableRecord

unfoldable pub encode_routed : RoutedRecord → Outcome (List ℕ)
encode_routed r = do
  bytes ← Record.encode r.durable_record
  ok (routed_record_magic ∷ routed_record_version ∷ (encode_frame r.frame ++ bytes))

unfoldable pub decode_routed : List ℕ → Outcome RoutedRecord
decode_routed bytes = do
  reject
      (ltb (length bytes) (2 + relay_frame_bytes)
        || ltb max_routed_record (length bytes)
        || not (get_or bytes 0 0 == routed_record_magic)
        || not (get_or bytes 1 0 == routed_record_version))
      invalid_input
  frame ← decode_frame (range bytes 2 (2 + relay_frame_bytes))
  r ← Record.decode (drop (2 + relay_frame_bytes) bytes)
  ok (record { frame = frame; durable_record = r })
