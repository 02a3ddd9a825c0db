-- ===== src/Protocol/Record.antt =====
-- crates/mesh-protocol/src/lib.rs: `DurableRecord`, the application record inside a session.
pub mod Framing
mod Tests
use mesh_lab.Prelude.{
  ℕ, ◌+◌, ◌-◌, ◌%◌, ◌^◌, Bool, not, ◌||◌, List, [], ◌∷◌, ◌++◌, length, get_or, take, drop, ltb,
  ◌==◌, if◌then◌else◌, ok, err, ◌>>=◌, ◌>>◌, reject,
}
use mesh_lab.Durable.{Outcome, ObjectId, invalid_input, unsupported_schema, chunk_bytes}
use mesh_lab.Codec.Words.{be_bytes, from_be}

abbrev pub max_announcement : ℕ
max_announcement = 3998

abbrev pub max_receipt : ℕ
max_receipt = 1024

abbrev pub max_receipt_ack : ℕ
max_receipt_ack = 1024

abbrev pub durable_record_magic : ℕ
durable_record_magic = 0x6d

abbrev pub durable_record_version : ℕ
durable_record_version = 1

abbrev pub max_durable_record : ℕ
max_durable_record = max_announcement + 5

pub data DurableRecord : Type 0 where
  announcement : List ℕ → DurableRecord
  chunk : ObjectId → ℕ → List ℕ → DurableRecord
  receipt : List ℕ → DurableRecord
  receipt_ack : List ℕ → DurableRecord

-- `bytes.is_empty() || bytes.len() > limit`
abbrev pub ill_sized : ℕ → List ℕ → Bool
ill_sized limit bytes = length bytes == 0 || ltb limit (length bytes)

-- `(bytes.len() as u16).to_be_bytes()`
abbrev pub length_bytes : List ℕ → List ℕ
length_bytes bytes = be_bytes 2 (length bytes % 2 ^ 16)

abbrev pub framed : ℕ → ℕ → List ℕ → Outcome (List ℕ)
framed tag limit bytes = do
  reject (ill_sized limit bytes) invalid_input
  ok (durable_record_magic ∷ durable_record_version ∷ tag ∷ (length_bytes bytes ++ bytes))

unfoldable pub encode : DurableRecord → Outcome (List ℕ)
encode (announcement bytes) = framed 1 max_announcement bytes
encode (chunk object index bytes) = do
  reject (ill_sized chunk_bytes bytes) invalid_input
  ok (
      durable_record_magic
      ∷ durable_record_version
      ∷ 2
      ∷ (object.id ++ (be_bytes 2 index ++ (length_bytes bytes ++ bytes))))
encode (receipt bytes) = framed 3 max_receipt bytes
encode (receipt_ack bytes) = framed 4 max_receipt_ack bytes

abbrev pub limit_of : ℕ → Outcome ℕ
limit_of tag =
    if tag == 1
    then ok max_announcement
    else if tag == 3
    then ok max_receipt
    else if tag == 4
    then ok max_receipt_ack
    else err unsupported_schema

abbrev pub record_of : ℕ → List ℕ → Outcome DurableRecord
record_of tag bytes =
    if tag == 1
    then ok (announcement bytes)
    else if tag == 3
    then ok (receipt bytes)
    else if tag == 4
    then ok (receipt_ack bytes)
    else err unsupported_schema

-- `u16::from_be_bytes([input[i], input[i + 1]])`
abbrev pub word_at : List ℕ → ℕ → ℕ
word_at input i = from_be 0 (get_or input i 0 ∷ get_or input (i + 1) 0 ∷ [])

abbrev pub decode_framed : ℕ → List ℕ → Outcome DurableRecord
decode_framed tag input = do
  reject (ltb (length input) 5) invalid_input
  let len = word_at input 3
  limit ← limit_of tag
  reject (len == 0 || ltb limit len || not (length input == 5 + len)) invalid_input
  record_of tag (drop 5 input)

abbrev pub decode_chunk : List ℕ → Outcome DurableRecord
decode_chunk input = do
  reject (ltb (length input) 39) invalid_input
  let len = word_at input 37
  reject (len == 0 || ltb chunk_bytes len || not (length input == 39 + len)) invalid_input
  ok (chunk (record { id = take (35 - 3) (drop 3 input) }) (word_at input 35) (drop 39 input))

-- An index into `input` stands behind a check of its length, so the default 0 is not read.
unfoldable pub decode : List ℕ → Outcome DurableRecord
decode input = do
  reject
      (ltb (length input) 3
        || ltb max_durable_record (length input)
        || not (get_or input 0 0 == durable_record_magic)
        || not (get_or input 1 0 == durable_record_version))
      invalid_input
  let tag = get_or input 2 0
  if tag == 1 || tag == 3 || tag == 4
      then decode_framed tag input
      else if tag == 2
      then decode_chunk input
      else err unsupported_schema
