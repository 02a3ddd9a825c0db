-- ===== src/Object/Tests.antt =====
-- An object of 1030 bytes, with the length of the input in place of a digest.
use mesh_lab.Prelude.{ℕ, ◌%◌, ◌≡◌, refl, List, [], ◌∷◌, length, replicate, ok}
use mesh_lab.Prelude.Sort.{sort, insert_sorted}
use mesh_lab.Durable.{MemberId}
use mesh_lab.Object.{ObjectPolicy, PreparedObject, validate, cut, from_opaque, verify_chunk}
use mesh_lab.Object.Chunks.{joined, from_opaque-verify_chunk}

abbrev pub measure : List ℕ → List ℕ
measure bytes = replicate 32 (length bytes % 256)

abbrev member : ℕ → MemberId
member n = record { id = replicate 32 n }

abbrev policy : ObjectPolicy
policy = record {
  namespace = record { name = 0x6d ∷ 0x65 ∷ [] };
  epoch = 1;
  targets = member 3 ∷ member 2 ∷ [];
  expires_at = 100;
  hop_limit = 4;
}

abbrev content : List ℕ
content = replicate 1030 9

abbrev object : PreparedObject
object = record {
  manifest = record {
    origin = member 1;
    sequence = 1;
    namespace = policy.namespace;
    epoch = 1;
    targets = member 2 ∷ member 3 ∷ [];
    expires_at = 100;
    hop_limit = 4;
    content_len = 1030;
    hashes = replicate 32 0 ∷ replicate 32 6 ∷ [];
  };
  chunks = replicate 1024 9 ∷ replicate 6 9 ∷ [];
}

made : from_opaque measure (member 1) 1 policy content ≡ ok object
unfolding from_opaque validate cut sort insert_sorted
made = refl

from_opaque-verify_chunk_example :
    (joined object.chunks ≡ content)
    × (validate object.manifest ≡ ok tt)
    × (verify_chunk measure object.manifest 1 (replicate 6 9) ≡ ok tt)
from_opaque-verify_chunk_example =
    from_opaque-verify_chunk measure (member 1) 1 policy content object 1 (replicate 6 9) made refl
