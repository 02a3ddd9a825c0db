-- ===== src/Codec/Tests.antt =====
-- The number 1000 in an array, in the canonical reader.
use mesh_lab.Prelude.{◌≡◌, refl, [], ◌∷◌, ◌++◌, ok, arith, All}
use mesh_lab.Durable.{IsByte, IsU64}
use mesh_lab.Codec.{Reader, head_bytes, value, byte, read_be, long_value}
use mesh_lab.Codec.Words.{be_bytes}
use mesh_lab.Codec.Head.{remaining, advance}
use mesh_lab.Codec.Canonical.{Reads, value_inv}

abbrev thousand : Reader
thousand = record { bytes = 0x82 ∷ 0x19 ∷ 0x03 ∷ 0xe8 ∷ 5 ∷ []; pos = 1 }

thousand_split : remaining thousand ≡ head_bytes 0 1000 ++ 5 ∷ []
unfolding head_bytes be_bytes
thousand_split = refl

thousand_read : value 0 thousand ≡ ok (1000, advance thousand 3)
unfolding value byte read_be long_value
thousand_read = refl

thousand_bytes : All IsByte (remaining thousand)
thousand_bytes = omega arith

value_inv_example : IsU64 1000 × Reads thousand (advance thousand 3) (head_bytes 0 1000)
value_inv_example = value_inv 0 1000 thousand (advance thousand 3) thousand_bytes thousand_read
