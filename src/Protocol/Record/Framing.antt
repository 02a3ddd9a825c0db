-- ===== src/Protocol/Record/Framing.antt =====
-- A record has one encoding, and the decoder accepts nothing else.
use mesh_lab.Prelude.{
  ℕ, ◌+◌, ◌*◌, ◌/◌, ◌%◌, ◌^◌, ◌≤◌, ◌<◌, ◌≡◌, refl, sym, ap, ◌∙◌, ◌↔◌, Bool, false, not, ◌||◌, List,
  [], ◌∷◌, ◌++◌, length, take, drop, get_or, ltb, ◌==◌, ok, reject, arith, All, length-append, ◌≢◌,
  ◌⊎◌, reject_inv, ◌>>◌, suc, length-take, take-append-drop, reject_then, subst, All-append_right,
  take-append_of, drop-append_of, get_or-append_of,
}
use native.Mathlib.Decide.{ℕ_discrete}
use mesh_lab.Durable.{IsByte, Outcome, invalid_input, chunk_bytes}
use mesh_lab.Codec.Words.{be_bytes, from_be}
use mesh_lab.Protocol.Record.{
  DurableRecord, announcement, chunk, receipt, receipt_ack, encode, decode, ill_sized, length_bytes,
  word_at, decode_chunk, framed, limit_of, record_of, max_announcement, max_receipt,
  max_receipt_ack,
}

-- The array types of a record's fields: the identifier and index of a chunk.
abbrev pub IsTyped : DurableRecord → Type 0
IsTyped (chunk object index bytes) = (length object.id ≡ 32) × (index < 2 ^ 16)
IsTyped _ = Unit {0}

IsShort : ℕ → Type 0
IsShort tag = (tag ≡ 1) ⊎ (tag ≡ 3) ⊎ (tag ≡ 4)

low_word : (n : ℕ) → n < 2 ^ 16 → (n % 2 ^ 16 / 256 % 256) * 256 + n % 2 ^ 16 % 256 ≡ n
low_word n h = omega arith

decode-framed :
    (tag limit : ℕ) (bytes input : List ℕ)
    → limit_of tag ≡ ok limit
    → framed tag limit bytes ≡ ok input
    → decode input ≡ record_of tag bytes
unfolding decode be_bytes from_be
decode-framed tag limit bytes input known h =
    let sized : ill_sized limit bytes ≡ false = reject_inv (ill_sized limit bytes) _ _ h in
    let small : limit ≤ 3998 = ground (arith, known) in
    let bounds : (1 ≤ length bytes) × (length bytes ≤ limit) =
      (ground (arith, sized), ground (arith, sized)) in
    let shape : input ≡ 0x6d ∷ 1 ∷ tag ∷ (length_bytes bytes ++ bytes) = ground (arith, h) in
    rw shape (ground (arith, known, bounds, low_word (length bytes)))

word_split :
    (n c d : ℕ)
    → c < 256
    → d < 256
    → n ≡ (0 * 256 + c) * 256 + d
    → (n % 2 ^ 16 / 256 % 256 ≡ c) × (n % 2 ^ 16 % 256 ≡ d)
word_split n c d hc hd e = (omega arith, omega arith)

-- Any input with another tag than that of a chunk.
decode_short :
    (a b t c d : ℕ) (rest : List ℕ) (r : DurableRecord)
    → c < 256
    → d < 256
    → t ≢ 2
    → decode (a ∷ b ∷ t ∷ c ∷ d ∷ rest) ≡ ok r
    → encode r ≡ ok (a ∷ b ∷ t ∷ c ∷ d ∷ rest)
unfolding encode decode be_bytes from_be
decode_short a b t c d rest (announcement bytes) hc hd no_chunk h =
    ground (arith, h, word_split (length rest) c d)
decode_short a b t c d rest (receipt bytes) hc hd no_chunk h =
    ground (arith, h, word_split (length rest) c d)
decode_short a b t c d rest (receipt_ack bytes) hc hd no_chunk h =
    ground (arith, h, word_split (length rest) c d)
decode_short a b t c d rest (chunk object index bytes) hc hd no_chunk h = ground (arith, h)

-- The decoder of a chunk, with the identifier cut off.
decode_chunk_tail : List ℕ → List ℕ → Outcome DurableRecord
decode_chunk_tail id tail = do
  reject (ltb (35 + length tail) 39) invalid_input
  let len = word_at tail 2
  reject (len == 0 || ltb chunk_bytes len || not (35 + length tail == 39 + len)) invalid_input
  ok (chunk (record { id = id }) (word_at tail 0) (drop 4 tail))

decode_chunk-tail :
    (a b t : ℕ) (id tail : List ℕ)
    → length id ≡ 32
    → decode_chunk (a ∷ b ∷ t ∷ (id ++ tail)) ≡ decode_chunk_tail id tail
unfolding decode_chunk_tail
decode_chunk-tail a b t id tail h =
    let total : suc (suc (suc (length (id ++ tail)))) ≡ 35 + length tail =
      omega (arith, length-append id tail) in
    rw (
      total,
      take-append_of 32 id tail h,
      drop-append_of 32 4 id tail h,
      get_or-append_of 32 0 id tail 0 h,
      get_or-append_of 32 1 id tail 0 h,
      get_or-append_of 32 2 id tail 0 h,
      get_or-append_of 32 3 id tail 0 h,
    )

chunk_tail :
    (id : List ℕ) (index : ℕ) (bytes : List ℕ)
    → index < 2 ^ 16
    → (1 ≤ length bytes) × (length bytes ≤ 1024)
    → decode_chunk_tail id (
        (index / 256 % 256)
        ∷ (index % 256)
        ∷ (length bytes % 2 ^ 16 / 256 % 256)
        ∷ (length bytes % 2 ^ 16 % 256)
        ∷ bytes)
      ≡ ok (chunk (record { id = id }) index bytes)
unfolding decode_chunk_tail from_be
chunk_tail id index bytes small bounds =
    ground (arith, bounds, low_word (length bytes), low_word index)

decode-chunk :
    (id : List ℕ) (index : ℕ) (bytes input : List ℕ)
    → length id ≡ 32
    → index < 2 ^ 16
    → encode (chunk (record { id = id }) index bytes) ≡ ok input
    → decode input ≡ ok (chunk (record { id = id }) index bytes)
unfolding encode decode be_bytes from_be
decode-chunk id index bytes input sized small h =
    let fits : ill_sized chunk_bytes bytes ≡ false =
      reject_inv (ill_sized chunk_bytes bytes) _ _ h in
    let bounds : (1 ≤ length bytes) × (length bytes ≤ 1024) =
      (ground (arith, fits), ground (arith, fits)) in
    let tail =
      (index / 256 % 256)
      ∷ (index % 256)
      ∷ (length bytes % 2 ^ 16 / 256 % 256)
      ∷ (length bytes % 2 ^ 16 % 256)
      ∷ bytes in
    let shape : input ≡ 0x6d ∷ 1 ∷ 2 ∷ (id ++ tail) = ground (arith, h) in
    let inner : decode_chunk input ≡ ok (chunk (record { id = id }) index bytes) =
      rw shape
        (decode_chunk-tail 0x6d 1 2 id tail sized ∙ chunk_tail id index bytes small bounds) in
    rw shape (ground (arith, inner, shape, length-append id tail, sized, bounds))

chunk_tail_inv :
    (id tail : List ℕ) (r : DurableRecord)
    → All IsByte tail
    → decode_chunk_tail id tail ≡ ok r
    → (index : ℕ) × (bytes : List ℕ) × (r ≡ chunk (record { id = id }) index bytes)
      × (index < 2 ^ 16)
      × (ill_sized chunk_bytes bytes ≡ false)
      × (tail ≡ be_bytes 2 index ++ (length_bytes bytes ++ bytes))
unfolding decode_chunk_tail be_bytes from_be
chunk_tail_inv id [] r those h = cc
chunk_tail_inv id (i ∷ []) r those h = cc
chunk_tail_inv id (i ∷ j ∷ []) r those h = cc
chunk_tail_inv id (i ∷ j ∷ c ∷ []) r those h = cc
chunk_tail_inv id (i ∷ j ∷ c ∷ d ∷ bytes) r those h =
    let hi = those.0 in
    let hj = those.1.0 in
    let hc = those.1.1.0 in
    let hd = those.1.1.1.0 in
    let index = (0 * 256 + i) * 256 + j in
    let announced : length bytes ≡ (0 * 256 + c) * 256 + d = ground (arith, h) in
    let high : index / 256 % 256 ≡ i = omega (arith, hi, hj) in
    let low : index % 256 ≡ j = omega (arith, hj) in
    let (lc, ld) = word_split (length bytes) c d hc hd announced in
    (
      index,
      bytes,
      ground (arith, h),
      omega (arith, hi, hj),
      ground (arith, h),
      rw (high, low, lc, ld),
    )

chunk_encoded :
    (a b index : ℕ) (id bytes rest : List ℕ) (r : DurableRecord)
    → r ≡ chunk (record { id = id }) index bytes
    → a ≡ 0x6d
    → b ≡ 1
    → length id ≡ 32
    → index < 2 ^ 16
    → ill_sized chunk_bytes bytes ≡ false
    → id ++ (be_bytes 2 index ++ (length_bytes bytes ++ bytes)) ≡ rest
    → (encode r ≡ ok (a ∷ b ∷ 2 ∷ rest)) × IsTyped r
unfolding encode
chunk_encoded a b index id bytes rest r same magic version sized small fits input =
    rw (same, magic, version) (rw (fits, input), (sized, small))

-- Any input with the tag of a chunk.
decode_chunk_inv :
    (a b : ℕ) (rest : List ℕ) (r : DurableRecord)
    → All IsByte rest
    → decode (a ∷ b ∷ 2 ∷ rest) ≡ ok r
    → (encode r ≡ ok (a ∷ b ∷ 2 ∷ rest)) × IsTyped r
unfolding decode
decode_chunk_inv a b rest r those h =
    let magic : a ≡ 0x6d = ground (arith, h) in
    let version : b ≡ 1 = ground (arith, h) in
    let inner : decode_chunk (a ∷ b ∷ 2 ∷ rest) ≡ ok r =
      reject_then
        (ltb (suc (suc (suc (length rest)))) 3
          || ltb 4003 (suc (suc (suc (length rest))))
          || not (a == 0x6d)
          || not (b == 1))
        invalid_input (decode_chunk (a ∷ b ∷ 2 ∷ rest)) h in
    let long : 36 ≤ length rest = ground (arith, inner) in
    let id = take 32 rest in
    let tail = drop 32 rest in
    let sized : length id ≡ 32 = omega (arith, length-take 32 rest) in
    let whole : id ++ tail ≡ rest = take-append-drop 32 rest in
    let run : decode_chunk_tail id tail ≡ ok r =
      sym (decode_chunk-tail a b 2 id tail sized)
      ∙ ap (λ t. decode_chunk (a ∷ b ∷ 2 ∷ t)) whole
      ∙ inner in
    let those_tail = All-append_right IsByte id tail (subst (All IsByte) (sym whole) those) in
    let (index, bytes, same, small, fits, shape) = chunk_tail_inv id tail r those_tail run in
    let input : id ++ (be_bytes 2 index ++ (length_bytes bytes ++ bytes)) ≡ rest =
      ap (λ t. id ++ t) (sym shape) ∙ whole in
    chunk_encoded a b index id bytes rest r same magic version sized small fits input

short-IsTyped :
    (a b t : ℕ) (rest : List ℕ) (r : DurableRecord)
    → t ≢ 2
    → decode (a ∷ b ∷ t ∷ rest) ≡ ok r
    → IsTyped r
unfolding decode
short-IsTyped a b t rest (chunk object index bytes) n h = ground (arith, h)
short-IsTyped a b t rest _ n h = tt

short_inv :
    (a b t : ℕ) (rest : List ℕ) (r : DurableRecord)
    → All IsByte (a ∷ b ∷ t ∷ rest)
    → t ≢ 2
    → decode (a ∷ b ∷ t ∷ rest) ≡ ok r
    → (encode r ≡ ok (a ∷ b ∷ t ∷ rest)) × IsTyped r
short_inv a b t [] r those n h = unfold decode in ground (arith, h)
short_inv a b t (c ∷ []) r those n h = unfold decode in ground (arith, h)
short_inv a b t (c ∷ d ∷ rest) r those n h = (
  decode_short a b t c d rest r those.1.1.1.0 those.1.1.1.1.0 n h,
  short-IsTyped a b t (c ∷ d ∷ rest) r n h,
)

decode-encode :
    (input : List ℕ) (r : DurableRecord) → encode r ≡ ok input → IsTyped r → decode input ≡ ok r
decode-encode input (announcement bytes) h typed =
    decode-framed 1 max_announcement bytes input refl (unfold encode in h)
decode-encode input (receipt bytes) h typed =
    decode-framed 3 max_receipt bytes input refl (unfold encode in h)
decode-encode input (receipt_ack bytes) h typed =
    decode-framed 4 max_receipt_ack bytes input refl (unfold encode in h)
decode-encode input (chunk object index bytes) h typed =
    decode-chunk object.id index bytes input typed.0 typed.1 h

bounded_test : (a b c : Bool) (n : ℕ) → (a || ltb 4003 n || b || c) ≡ false → n ≤ 4003
bounded_test a b c n h = ground (arith, h)

decode_inv :
    (input : List ℕ) (r : DurableRecord)
    → All IsByte input
    → decode input ≡ ok r
    → (encode r ≡ ok input) × IsTyped r
decode_inv [] r those h = unfold decode in cc
decode_inv (a ∷ []) r those h = unfold decode in cc
decode_inv (a ∷ b ∷ []) r those h = unfold decode in cc
decode_inv (a ∷ b ∷ t ∷ rest) r those h = elim (ℕ_discrete t 2) [
  | yes e ↦ rw e (decode_chunk_inv a b rest r those.1.1.1 (rw e at h))
  | no n ↦ short_inv a b t rest r those n h
]

-- A byte string decodes to a record exactly if it is what the record is encoded to; the record's
-- bounds, its 32-byte identifier and its 16-bit index are part of this.
pub decode_iff :
    (input : List ℕ) (r : DurableRecord)
    → All IsByte input
    → (decode input ≡ ok r) ↔ ((encode r ≡ ok input) × IsTyped r)
decode_iff input r those = (decode_inv input r those, λ h. decode-encode input r h.0 h.1)

pub decode-length : (input : List ℕ) (r : DurableRecord) → decode input ≡ ok r → length input ≤ 4003
unfolding decode
decode-length input r h =
    let tested =
      reject_inv
        (ltb (length input) 3
          || ltb 4003 (length input)
          || not (get_or input 0 0 == 0x6d)
          || not (get_or input 1 0 == 1))
        invalid_input _ h in
    bounded_test (ltb (length input) 3) (not (get_or input 0 0 == 0x6d))
      (not (get_or input 1 0 == 1)) (length input) tested
