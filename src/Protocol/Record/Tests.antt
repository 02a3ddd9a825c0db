-- ===== src/Protocol/Record/Tests.antt =====
-- The second chunk of an object.
use mesh_lab.Prelude.{ℕ, ◌≡◌, ◌↔◌, refl, List, [], ◌∷◌, ◌++◌, replicate, ok, arith}
use mesh_lab.Protocol.Record.{DurableRecord, chunk, encode, decode}
use mesh_lab.Codec.Words.{from_be}
use mesh_lab.Protocol.Record.Framing.{IsTyped, decode_iff}

abbrev second : DurableRecord
second = chunk (record { id = replicate 32 7 }) 1 (9 ∷ 8 ∷ [])

abbrev second_bytes : List ℕ
second_bytes = 0x6d ∷ 1 ∷ 2 ∷ (replicate 32 7 ++ 0 ∷ 1 ∷ 0 ∷ 2 ∷ 9 ∷ 8 ∷ [])

second_decoded : decode second_bytes ≡ ok second
unfolding decode from_be
second_decoded = refl

decode_iff_example :
    (decode second_bytes ≡ ok second) ↔ ((encode second ≡ ok second_bytes) × IsTyped second)
decode_iff_example = decode_iff second_bytes second (omega arith)
