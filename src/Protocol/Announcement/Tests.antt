-- ===== src/Protocol/Announcement/Tests.antt =====
-- An announcement by the only member of a group.
use mesh_lab.Prelude.{ℕ, ◌≡◌, ◌↔◌, refl, List, [], ◌∷◌, ◌++◌, replicate, ok, All, arith}
use mesh_lab.Durable.{IsByte, new_namespace}
use mesh_lab.Codec.{value, long_value, read_be, byte, array, string, byte_string, fixed}
use mesh_lab.Codec.Utf8.{is_utf8}
use mesh_lab.Crypto.Toy.{toy}
use mesh_lab.Object
use mesh_lab.Object.{Manifest, read_hashes, read_namespace, validate}
use mesh_lab.Protocol.Example.{member, roster}
use mesh_lab.Protocol.Announcement.{authenticate_announcement}
use mesh_lab.Protocol.Announcement.Authentic.{Announces, announced, authenticate_announcement_iff}

abbrev manifest : Manifest
manifest = record {
  origin = member;
  sequence = 1;
  namespace = record { name = 0x63 ∷ 0x68 ∷ 0x61 ∷ 0x74 ∷ [] };
  epoch = 1;
  targets = member ∷ [];
  expires_at = 60;
  hop_limit = 3;
  content_len = 1;
  hashes = replicate 32 9 ∷ [];
}

abbrev packed : List ℕ
packed =
    0x8a
    ∷ 1
    ∷ 0x58
    ∷ 32
    ∷ (replicate 32 1
        ++ (1
            ∷ 0x64
            ∷ 0x63
            ∷ 0x68
            ∷ 0x61
            ∷ 0x74
            ∷ 1
            ∷ 0x81
            ∷ 0x58
            ∷ 32
            ∷ (replicate 32 1 ++ (0x18 ∷ 60 ∷ 3 ∷ 1 ∷ 0x81 ∷ 0x58 ∷ 32 ∷ replicate 32 9))))

abbrev announcement : List ℕ
announcement =
    0x82
    ∷ 0x58
    ∷ 155
    ∷ 0x83
    ∷ 1
    ∷ 0x58
    ∷ 32
    ∷ (replicate 32 8 ++ (0x58 ∷ 117 ∷ (packed ++ (0x58 ∷ 64 ∷ replicate 64 1))))

packed_decoded : Object.decode packed ≡ ok manifest
unfolding Object.decode value long_value read_be byte array string byte_string fixed read_hashes
    read_namespace validate is_utf8 new_namespace
packed_decoded = refl

announcement-IsByte : All IsByte announcement
announcement-IsByte = omega arith

authenticate_announcement_iff_example :
    (authenticate_announcement toy announcement roster 50
      ≡ ok (announced announcement roster manifest))
    ↔ Announces toy announcement roster 50 manifest
authenticate_announcement_iff_example =
    authenticate_announcement_iff toy announcement roster 50 manifest announcement-IsByte
