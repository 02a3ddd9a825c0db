-- ===== src/Object.antt =====
-- crates/mesh-object/src/lib.rs: immutable manifests and their chunks. Its private `head`, `Reader`,
-- `uint`, `blob` and `text` are those of crates/mesh-codec/src/canonical.rs.
pub mod Chunks
mod Tests
use mesh_lab.Prelude.{
  ℕ, zero, suc, ◌+◌, ◌-◌, ◌*◌, ◌/◌, min, Bool, true, false, not, ◌&&◌, ◌||◌, List, [], ◌∷◌, ◌++◌,
  Option, some, none, map, length, get_or, take, drop, any, ltb, leb, ◌==◌, if◌then◌else◌, ok, err,
  ◌>>=◌, ◌>>◌, reject,
}
use mesh_lab.Prelude.Ord.{equal, bytes_ord}
use mesh_lab.Prelude.Sort.{sort, ascending}
use mesh_lab.Durable.{
  Outcome, MemberId, ObjectId, Namespace, new_namespace, member_ord, invalid_input,
  unsupported_schema, corrupt, expired, chunk_bytes, max_object_bytes, max_chunks, max_targets,
  max_manifest_bytes, max_logical_time,
}
use mesh_lab.Codec.{Reader, head_bytes, value, array, string, fixed}
use mesh_lab.Codec.Utf8.{is_utf8}

pub record Manifest : Type 0 where
  pub origin : MemberId
  pub sequence : ℕ
  pub namespace : Namespace
  pub epoch : ℕ
  pub targets : List MemberId
  pub expires_at : ℕ
  pub hop_limit : ℕ
  pub content_len : ℕ
  pub hashes : List (List ℕ)

pub record ObjectPolicy : Type 0 where
  pub namespace : Namespace
  pub epoch : ℕ
  pub targets : List MemberId
  pub expires_at : ℕ
  pub hop_limit : ℕ

pub record PreparedObject : Type 0 where
  pub manifest : Manifest
  pub chunks : List (List ℕ)

-- `content_len.div_ceil(CHUNK_BYTES)`
abbrev pub chunks_for : ℕ → ℕ
chunks_for n = (n + 1023) / chunk_bytes

abbrev pub outside : ℕ → ℕ → Bool
outside high n = n == 0 || ltb high n

abbrev pub unfit : Manifest → Bool
unfit m =
    outside max_logical_time m.sequence
    || outside max_logical_time m.epoch
    || outside max_logical_time m.expires_at
    || outside 16 m.hop_limit
    || outside max_targets (length m.targets)
    || not (ascending m.targets)
    || outside max_object_bytes m.content_len
    || not (length m.hashes == chunks_for m.content_len)

unfoldable pub validate : Manifest → Outcome (Unit {0})
validate m = reject (unfit m) invalid_input

abbrev pub blob : List ℕ → List ℕ
blob v = head_bytes 2 (length v) ++ v

abbrev pub blobs : List (List ℕ) → List ℕ
blobs [] = []
blobs (v ∷ vs) = blob v ++ blobs vs

unfoldable pub encode : Manifest → List ℕ
encode m =
    0x8a
    ∷ 1
    ∷ (blob m.origin.id
        ++ (head_bytes 0 m.sequence
            ++ ((head_bytes 3 (length m.namespace.name) ++ m.namespace.name)
                ++ (head_bytes 0 m.epoch
                    ++ (head_bytes 4 (length m.targets)
                        ++ (blobs (map (λ t. t.id) m.targets)
                            ++ (head_bytes 0 m.expires_at
                                ++ (head_bytes 0 m.hop_limit
                                    ++ (head_bytes 0 m.content_len
                                        ++ (head_bytes 4 (length m.hashes)
                                            ++ blobs m.hashes))))))))))

-- `for _ in 0..count { out.push(r.hash()?) }`
unfoldable pub read_hashes : ℕ → Reader → Outcome (List (List ℕ) × Reader)
read_hashes zero r = ok ([], r)
read_hashes (suc n) r = do (h, r₁) ← fixed 32 r; (hs, r₂) ← read_hashes n r₁; ok (h ∷ hs, r₂)

-- The text of at most 64 bytes that names the namespace.
unfoldable pub read_namespace : Reader → Outcome (Namespace × Reader)
read_namespace r = do
  (b, r') ← string 3 64 r
  reject (not (is_utf8 b)) invalid_input
  n ← new_namespace b
  ok (n, r')

unfoldable pub decode : List ℕ → Outcome Manifest
decode bytes = do
  reject (ltb max_manifest_bytes (length bytes)) invalid_input
  (_, r₁) ← array 10 (record { bytes = bytes; pos = 0 })
  (version, r₂) ← value 0 r₁
  reject (not (version == 1)) unsupported_schema
  (origin, r₃) ← fixed 32 r₂
  (sequence, r₄) ← value 0 r₃
  (namespace, r₅) ← read_namespace r₄
  (epoch, r₆) ← value 0 r₅
  (target_count, r₇) ← value 4 r₆
  reject (outside max_targets target_count) invalid_input
  (targets, r₈) ← read_hashes target_count r₇
  (expires_at, r₉) ← value 0 r₈
  (hop_limit, r₁₀) ← value 0 r₉
  reject (ltb 255 hop_limit) invalid_input
  (content_len, r₁₁) ← value 0 r₁₀
  (hash_count, r₁₂) ← value 4 r₁₁
  reject (outside max_chunks hash_count) invalid_input
  (hashes, r₁₃) ← read_hashes hash_count r₁₂
  reject (not (r₁₃.pos == length bytes)) invalid_input
  let m : Manifest = record {
    origin = record { id = origin };
    sequence = sequence;
    namespace = namespace;
    epoch = epoch;
    targets = map (λ id. record { id = id }) targets;
    expires_at = expires_at;
    hop_limit = hop_limit;
    content_len = content_len;
    hashes = hashes;
  }
  _ ← validate m
  ok m

-- `bytes.chunks(CHUNK_BYTES)`, with a step for each chunk at most.
unfoldable pub cut : ℕ → List ℕ → List (List ℕ)
cut zero xs = []
cut (suc steps) [] = []
cut (suc steps) (x ∷ xs) = take chunk_bytes (x ∷ xs) ∷ cut steps (drop chunk_bytes (x ∷ xs))

-- The length that the chunk at `index` has.
abbrev pub expected_length : Manifest → ℕ → ℕ
expected_length m index =
    if index + 1 == length m.hashes then m.content_len - index * chunk_bytes else chunk_bytes

-- `b"MeshLab/StoreManifest/v1\0"`
abbrev pub manifest_domain : List ℕ
manifest_domain =
    0x4d ∷ 0x65 ∷ 0x73 ∷ 0x68 ∷ 0x4c ∷ 0x61 ∷ 0x62 ∷ 0x2f ∷ 0x53 ∷ 0x74 ∷ 0x6f ∷ 0x72 ∷ 0x65 ∷ 0x4d
    ∷ 0x61 ∷ 0x6e ∷ 0x69 ∷ 0x66 ∷ 0x65 ∷ 0x73 ∷ 0x74 ∷ 0x2f ∷ 0x76 ∷ 0x31 ∷ 0x00 ∷ []

-- SHA-256 is a library's.
module _ (digest : List ℕ → List ℕ) where
  pub id_of : Manifest → ObjectId
  id_of m = record { id = digest (manifest_domain ++ encode m) }

  unfoldable pub from_opaque : MemberId → ℕ → ObjectPolicy → List ℕ → Outcome PreparedObject
  from_opaque origin sequence policy bytes = do
    reject (length bytes == 0 || ltb max_object_bytes (length bytes)) invalid_input
    let chunks = cut (length bytes) bytes
    let m : Manifest = record {
      origin = origin;
      sequence = sequence;
      namespace = policy.namespace;
      epoch = policy.epoch;
      targets = sort policy.targets;
      expires_at = policy.expires_at;
      hop_limit = policy.hop_limit;
      content_len = length bytes;
      hashes = map digest chunks;
    }
    _ ← validate m
    ok (record { manifest = m; chunks = chunks })

  unfoldable pub verify_chunk : Manifest → ℕ → List ℕ → Outcome (Unit {0})
  verify_chunk m index bytes = do
    reject (leb (length m.hashes) index) invalid_input
    reject
        (not (length bytes == expected_length m index)
          || not (equal (digest bytes) (get_or m.hashes index [])))
        corrupt
