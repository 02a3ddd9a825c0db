-- ===== src/Protocol/Policy/Tests.antt =====
-- A bundle of two certificates and a revoked serial.
use mesh_lab.Prelude.{ℕ, ◌≡◌, ◌↔◌, refl, List, [], ◌∷◌, ◌++◌, replicate, ok, All, arith}
use mesh_lab.Durable.{IsByte}
use mesh_lab.Codec.{head, head_bytes, write_array, write_uint, write_bytes, finish}
use mesh_lab.Codec.Each.{write_each}
use mesh_lab.Codec.Words.{be_bytes}
use mesh_lab.Protocol.Policy.{PolicyBundle, bundle_bytes, encode_bundle, decode_bundle}
use mesh_lab.Protocol.Policy.Framing.{IsSized, decode_bundle_iff}

abbrev bundle : PolicyBundle
bundle = record {
  authority = replicate 32 4;
  scope = record { group = replicate 32 8; epoch = 1 };
  certificates = (1 ∷ 2 ∷ []) ∷ (3 ∷ []) ∷ [];
  revoked = 7 ∷ [];
}

abbrev bundle_encoded : List ℕ
bundle_encoded =
    0x86
    ∷ 1
    ∷ 0x58
    ∷ 32
    ∷ (replicate 32 4
        ++ (0x58 ∷ 32 ∷ (replicate 32 8 ++ (1 ∷ 0x82 ∷ 0x42 ∷ 1 ∷ 2 ∷ 0x41 ∷ 3 ∷ 0x81 ∷ 7 ∷ []))))

encoded : encode_bundle bundle ≡ ok bundle_encoded
unfolding encode_bundle bundle_bytes write_each be_bytes head head_bytes write_array write_uint
    write_bytes finish
encoded = refl

bundle_encoded-IsByte : All IsByte bundle_encoded
bundle_encoded-IsByte = omega arith

decode_bundle_iff_example :
    (decode_bundle bundle_encoded ≡ ok bundle)
    ↔ ((encode_bundle bundle ≡ ok bundle_encoded) × IsSized bundle)
decode_bundle_iff_example = decode_bundle_iff bundle_encoded bundle bundle_encoded-IsByte
