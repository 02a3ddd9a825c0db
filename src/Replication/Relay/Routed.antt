-- ===== src/Replication/Relay/Routed.antt =====
-- A routed record is a relay frame followed by a durable record.
use mesh_lab.Prelude.{
  ℕ, suc, ◌+◌, ◌≤◌, ◌≡◌, refl, sym, ap, subst, ◌∙◌, ◌↔◌, Bool, false, not, ◌||◌, List, [], ◌∷◌,
  ◌++◌, length, ltb, ◌==◌, ok, ◌>>=◌, ◌>>◌, reject, reject_then, reject_inv, >>=-eq-ok, arith, All,
  All-append_left, All-append_right, length-append, take-append_of, split_at, drop-append_of,
}
use mesh_lab.Durable.{IsByte, Outcome, invalid_input}
use mesh_lab.Codec.Words.{length-be_bytes}
use mesh_lab.Protocol.Record.{DurableRecord}
use mesh_lab.Protocol.Record as Record
use mesh_lab.Protocol.Record.Framing.{IsTyped, decode_iff, decode-length}
use mesh_lab.Replication.Relay.{
  RelayFrame, RoutedRecord, encode_frame, decode_frame, encode_routed, decode_routed,
}
use mesh_lab.Replication.Relay.Framing.{HopsInRange, IsTypedFrame, decode_frame_iff}

-- The types and ranges of the two parts.
pub record IsTypedRouted (r : RoutedRecord) : Type 0 where
  pub frame_typed : IsTypedFrame r.frame
  pub frame_ranges : HopsInRange r.frame
  pub record_typed : IsTyped r.durable_record

length-encode_frame : (f : RelayFrame) → IsTypedFrame f → length (encode_frame f) ≡ 91
unfolding encode_frame
length-encode_frame f t =
    simp (length-append, length-be_bytes) (omega (arith, t.id_sized, t.origin_sized, t.hop_sized))

abbrev size_test : ℕ → ℕ → ℕ → Bool
size_test n a b = ltb n 93 || ltb 4096 n || not (a == 0x72) || not (b == 1)

-- The decoder on a frame's bytes followed by a record's.
decode_routed-parts :
    (a b : ℕ) (front back : List ℕ)
    → length front ≡ 91
    → decode_routed (a ∷ b ∷ (front ++ back)) ≡ (do
      reject (size_test (93 + length back) a b) invalid_input
      frame ← decode_frame front
      r ← Record.decode back
      ok (record { frame = frame; durable_record = r }))
unfolding decode_routed
decode_routed-parts a b front back h =
    let total : suc (suc (length (front ++ back))) ≡ 93 + length back =
      omega (arith, length-append front back) in
    rw (total, take-append_of 91 front back h, drop-append_of 91 0 front back h)

decoded_parts :
    (front b : List ℕ) (f : RelayFrame) (d : DurableRecord)
    → length front ≡ 91
    → decode_frame front ≡ ok f
    → Record.decode b ≡ ok d
    → decode_routed (0x72 ∷ 1 ∷ (front ++ b)) ≡ ok (record { frame = f; durable_record = d })
decoded_parts front b f d sized hf hd =
    let passed : size_test (93 + length b) 0x72 1 ≡ false = ground (arith, decode-length b d hd) in
    decode_routed-parts 0x72 1 front b sized ∙ rw (passed, hf, hd)

encode_routed_inv :
    (r : RoutedRecord) (bytes : List ℕ)
    → encode_routed r ≡ ok bytes
    → (b : List ℕ) × (Record.encode r.durable_record ≡ ok b)
      × (bytes ≡ 0x72 ∷ 1 ∷ (encode_frame r.frame ++ b))
unfolding encode_routed
encode_routed_inv r bytes h =
    let (b, got, rest) = >>=-eq-ok (Record.encode r.durable_record) _ h in
    (b, got, ground (arith, rest))

decode-encode_routed :
    (bytes : List ℕ) (r : RoutedRecord)
    → All IsByte bytes
    → encode_routed r ≡ ok bytes
    → IsTypedRouted r
    → decode_routed bytes ≡ ok r
decode-encode_routed bytes r those h t =
    let (b, got, shape) = encode_routed_inv r bytes h in
    let front = encode_frame r.frame in
    let inner = (subst (All IsByte) shape those).1.1 in
    let front_bytes = All-append_left IsByte front b inner in
    let back_bytes = All-append_right IsByte front b inner in
    let hf = (decode_frame_iff front r.frame front_bytes).1 (refl, t.frame_typed, t.frame_ranges) in
    let hd = (decode_iff b r.durable_record back_bytes).1 (got, t.record_typed) in
    ap decode_routed shape
    ∙ decoded_parts front b r.frame r.durable_record (length-encode_frame r.frame t.frame_typed) hf
        hd

record Parts (bytes : List ℕ) (r : RoutedRecord) : Type 0 where
  front : List ℕ
  back : List ℕ
  sized : length front ≡ 91
  whole : bytes ≡ 0x72 ∷ 1 ∷ (front ++ back)
  frame_read : decode_frame front ≡ ok r.frame
  record_read : Record.decode back ≡ ok r.durable_record

size_test_inv : (n a b : ℕ) → size_test n a b ≡ false → (a ≡ 0x72) × (b ≡ 1)
size_test_inv n a b h = ground (arith, h)

Parts-record :
    (a b : ℕ) (front back : List ℕ) (f : RelayFrame) (d : DurableRecord) (r : RoutedRecord)
    → length front ≡ 91
    → a ≡ 0x72
    → b ≡ 1
    → decode_frame front ≡ ok f
    → Record.decode back ≡ ok d
    → ◌≡◌ {A = Outcome RoutedRecord} (ok (record { frame = f; durable_record = d })) (ok r)
    → Parts (a ∷ b ∷ (front ++ back)) r
Parts-record a b front back f d r sized magic version hf hd same = record {
  front = front;
  back = back;
  sized = sized;
  whole = rw (magic, version);
  frame_read = hf ∙ ground (arith, same);
  record_read = hd ∙ ground (arith, same);
}

long_test : (n a b : ℕ) → size_test (suc (suc n)) a b ≡ false → 91 ≤ n
long_test n a b h = ground (arith, h)

decode_routed-long :
    (a b : ℕ) (rest : List ℕ) (r : RoutedRecord)
    → decode_routed (a ∷ b ∷ rest) ≡ ok r
    → 91 ≤ length rest
unfolding decode_routed
decode_routed-long a b rest r h =
    long_test (length rest) a b
      (reject_inv (size_test (suc (suc (length rest))) a b) invalid_input _ h)

encoded_parts :
    (bytes front back : List ℕ) (r : RoutedRecord)
    → bytes ≡ 0x72 ∷ 1 ∷ (front ++ back)
    → front ≡ encode_frame r.frame
    → Record.encode r.durable_record ≡ ok back
    → encode_routed r ≡ ok bytes
unfolding encode_routed
encoded_parts bytes front back r whole shape got = rw (got, whole, shape)

Parts-of :
    (a b : ℕ) (front back : List ℕ) (r : RoutedRecord)
    → length front ≡ 91
    → decode_routed (a ∷ b ∷ (front ++ back)) ≡ ok r
    → Parts (a ∷ b ∷ (front ++ back)) r
Parts-of a b front back r sized h =
    let run = sym (decode_routed-parts a b front back sized) ∙ h in
    let tested = reject_inv (size_test (93 + length back) a b) invalid_input _ run in
    let (f, hf, run₂) =
      >>=-eq-ok (decode_frame front) _
        (reject_then (size_test (93 + length back) a b) invalid_input _ run) in
    let (d, hd, run₃) = >>=-eq-ok (Record.decode back) _ run₂ in
    let (magic, version) = size_test_inv (93 + length back) a b tested in
    Parts-record a b front back f d r sized magic version hf hd run₃

decode_routed_inv : (bytes : List ℕ) (r : RoutedRecord) → decode_routed bytes ≡ ok r → Parts bytes r
decode_routed_inv [] r h = unfold decode_routed in cc
decode_routed_inv (a ∷ []) r h = unfold decode_routed in cc
decode_routed_inv (a ∷ b ∷ rest) r h =
    let long = decode_routed-long a b rest r h in
    let (front, back, sized, whole) = split_at 91 rest long in
    let same : a ∷ b ∷ rest ≡ a ∷ b ∷ (front ++ back) = ap (λ t. a ∷ b ∷ t) whole in
    subst (λ t. Parts t r) (sym same)
      (Parts-of a b front back r sized (subst (λ t. decode_routed t ≡ ok r) same h))

-- A byte string decodes to a routed record exactly if it is that record's encoding, with a frame and
-- a record of the right field sizes and the frame's hops and lifetime in range.
pub decode_routed_iff :
    (bytes : List ℕ) (r : RoutedRecord)
    → All IsByte bytes
    → (decode_routed bytes ≡ ok r) ↔ ((encode_routed r ≡ ok bytes) × IsTypedRouted r)
decode_routed_iff bytes r those = (there, λ h. decode-encode_routed bytes r those h.0 h.1)
  where
    there : decode_routed bytes ≡ ok r → (encode_routed r ≡ ok bytes) × IsTypedRouted r
    there h =
        let q = decode_routed_inv bytes r h in
        let inner = (subst (All IsByte) q.whole those).1.1 in
        let (shape, typed, ranges) =
          (decode_frame_iff q.front r.frame (All-append_left IsByte q.front q.back inner)).0
            q.frame_read in
        let (got, fine) =
          (decode_iff q.back r.durable_record (All-append_right IsByte q.front q.back inner)).0
            q.record_read in
        (
          encoded_parts bytes q.front q.back r q.whole shape got,
          record { frame_typed = typed; frame_ranges = ranges; record_typed = fine },
        )
