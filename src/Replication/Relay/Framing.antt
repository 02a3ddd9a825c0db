-- ===== src/Replication/Relay/Framing.antt =====
-- The relay frame is a fixed layout of 91 bytes, and a routed record is a frame with a record.
use mesh_lab.Prelude.{
  ℕ, ◌+◌, ◌≤◌, ◌≡◌, refl, sym, ap, subst, ◌∙◌, ◌↔◌, Bool, false, not, ◌||◌, List, [], ◌∷◌, ◌++◌,
  length, drop, get_or, ltb, ◌==◌, ok, ◌>>◌, reject, reject_inv, arith, All, All-append_right,
  length-append, split_at, take-append_of, drop-append_of, get_or-append_of, take_all_of,
}
use mesh_lab.Durable.{IsByte, invalid_input, max_logical_time}
use mesh_lab.Codec.Words.{be_bytes, from_be, length-be_bytes, from_be-be_bytes, be_bytes-from_be}
use mesh_lab.Replication.Relay.{RelayFrame, encode_frame, decode_frame}

-- The bounds that the decoder checks.
abbrev pub HopsInRange : RelayFrame → Type 0
HopsInRange f =
    (1 ≤ f.hop_limit)
    × (f.hop_limit ≤ 16)
    × (f.hops ≤ f.hop_limit)
    × (f.expires_at ≤ max_logical_time)

-- The sizes of the fields' array types.
pub record IsTypedFrame (f : RelayFrame) : Type 0 where
  pub id_sized : length f.id.id ≡ 16
  pub origin_sized : length f.origin.id ≡ 32
  pub hop_sized : length f.previous_hop.id ≡ 32

-- The frame with the fields of one layout.
abbrev layout : List ℕ → List ℕ → List ℕ → ℕ → ℕ → List ℕ → List ℕ
layout id origin hop hops limit expires = id ++ (origin ++ (hop ++ (hops ∷ limit ∷ expires)))

abbrev frame_with : List ℕ → List ℕ → List ℕ → ℕ → ℕ → List ℕ → RelayFrame
frame_with id origin hop hops limit expires = record {
  id = record { id = id };
  origin = record { id = origin };
  previous_hop = record { id = hop };
  hops = hops;
  hop_limit = limit;
  expires_at = from_be 0 expires;
}

module _ (v hops limit : ℕ) (id origin hop expires : List ℕ) (i : length id ≡ 16)
    (o : length origin ≡ 32) (p : length hop ≡ 32) (e : length expires ≡ 8) where
  abbrev tail₁ : List ℕ
  tail₁ = hops ∷ limit ∷ expires

  abbrev tail₂ : List ℕ
  tail₂ = hop ++ tail₁

  abbrev tail₃ : List ℕ
  tail₃ = origin ++ tail₂

  length-layout : length (v ∷ layout id origin hop hops limit expires) ≡ 91
  length-layout =
      omega (arith, length-append id tail₃, length-append origin tail₂, length-append hop tail₁)

  drop-origin : (k : ℕ) → drop (16 + k) (layout id origin hop hops limit expires) ≡ drop k tail₃
  drop-origin k = drop-append_of 16 k id tail₃ i

  decode-layout : decode_frame (v ∷ layout id origin hop hops limit expires) ≡ (do
    reject (not (v == 1)) invalid_input
    let frame = frame_with id origin hop hops limit expires
    reject
        (limit == 0 || ltb 16 limit || ltb limit hops || ltb max_logical_time frame.expires_at)
        invalid_input
    ok frame)
  unfolding decode_frame
  decode-layout = rw (
    length-layout,
    take-append_of 16 id tail₃ i,
    drop-append_of 16 0 id tail₃ i,
    drop-append_of 16 32 id tail₃ i,
    drop-append_of 16 66 id tail₃ i,
    get_or-append_of 16 64 id tail₃ 0 i,
    get_or-append_of 16 65 id tail₃ 0 i,
    take-append_of 32 origin tail₂ o,
    drop-append_of 32 0 origin tail₂ o,
    drop-append_of 32 34 origin tail₂ o,
    get_or-append_of 32 32 origin tail₂ 0 o,
    get_or-append_of 32 33 origin tail₂ 0 o,
    take-append_of 32 hop tail₁ p,
    drop-append_of 32 2 hop tail₁ p,
    get_or-append_of 32 0 hop tail₁ 0 p,
    get_or-append_of 32 1 hop tail₁ 0 p,
    take_all_of 8 expires e,
  )

-- What the decoder accepts, field by field.
layout_inv :
    (v hops limit : ℕ) (id origin hop expires : List ℕ) (f : RelayFrame)
    → (do
      reject (not (v == 1)) invalid_input
      let frame = frame_with id origin hop hops limit expires
      reject
          (limit == 0 || ltb 16 limit || ltb limit hops || ltb max_logical_time frame.expires_at)
          invalid_input
      ok frame)
      ≡ ok f
    → (v ≡ 1) × (f ≡ frame_with id origin hop hops limit expires) × HopsInRange f
layout_inv v hops limit id origin hop expires f h = (
  ground (arith, h),
  ground (arith, h),
  (ground (arith, h), ground (arith, h), ground (arith, h), ground (arith, h)),
)

decode-encode_frame :
    (f : RelayFrame) → IsTypedFrame f → HopsInRange f → decode_frame (encode_frame f) ≡ ok f
unfolding encode_frame
decode-encode_frame f typed h =
    let expires = be_bytes 8 f.expires_at in
    let back : from_be 0 expires ≡ f.expires_at =
      from_be-be_bytes 8 f.expires_at (omega (arith, h.3)) in
    decode-layout 1 f.hops f.hop_limit f.id.id f.origin.id f.previous_hop.id expires typed.id_sized
      typed.origin_sized typed.hop_sized (length-be_bytes 8 f.expires_at)
    ∙ rw back (ground (arith, h))

length_tested :
    (bytes : List ℕ) (b : Bool) → (not (length bytes == 91) || b) ≡ false → length bytes ≡ 91
length_tested bytes b h = ground (arith, h)

layout_join :
    (v : ℕ) {bytes t₃ t₂ t₁ : List ℕ} (id origin hop : List ℕ) (hops limit : ℕ) (expires : List ℕ)
    → bytes ≡ id ++ t₃
    → t₃ ≡ origin ++ t₂
    → t₂ ≡ hop ++ t₁
    → t₁ ≡ hops ∷ limit ∷ expires
    → v ∷ bytes ≡ v ∷ layout id origin hop hops limit expires
layout_join v id origin hop hops limit expires w₁ w₂ w₃ w₄ = rw (w₁, w₂, w₃, w₄)

decode_frame-length :
    (bytes : List ℕ) (f : RelayFrame) → decode_frame bytes ≡ ok f → length bytes ≡ 91
unfolding decode_frame
decode_frame-length bytes f h =
    let sized =
      reject_inv (not (length bytes == 91) || not (get_or bytes 0 0 == 1)) invalid_input _ h in
    length_tested bytes (not (get_or bytes 0 0 == 1)) sized

record Layout (bytes : List ℕ) : Type 0 where
  version : ℕ
  hops : ℕ
  limit : ℕ
  id : List ℕ
  origin : List ℕ
  hop : List ℕ
  expires : List ℕ
  i : length id ≡ 16
  o : length origin ≡ 32
  p : length hop ≡ 32
  e : length expires ≡ 8
  whole : bytes ≡ version ∷ layout id origin hop hops limit expires

split_tail :
    (xs : List ℕ)
    → length xs ≡ 10
    → (a : ℕ) × (b : ℕ) × (rest : List ℕ) × (length rest ≡ 8) × (xs ≡ a ∷ b ∷ rest)
split_tail [] h = absurd (omega arith)
split_tail (a ∷ []) h = absurd (omega arith)
split_tail (a ∷ b ∷ rest) h = (a, b, rest, omega arith, refl)

bytes-Layout : (bytes : List ℕ) → length bytes ≡ 91 → Layout bytes
bytes-Layout [] h = absurd (omega arith)
bytes-Layout (v ∷ bytes) h =
    let (id, t₃, i, w₁) = split_at 16 bytes (omega arith) in
    let n₃ : length t₃ ≡ 74 = omega (arith, ap length w₁, length-append id t₃) in
    let (origin, t₂, o, w₂) = split_at 32 t₃ (omega arith) in
    let n₂ : length t₂ ≡ 42 = omega (arith, ap length w₂, length-append origin t₂) in
    let (hop, t₁, p, w₃) = split_at 32 t₂ (omega arith) in
    let n₁ : length t₁ ≡ 10 = omega (arith, ap length w₃, length-append hop t₁) in
    let (hops, limit, expires, e, w₄) = split_tail t₁ n₁ in
    record {
      version = v;
      hops = hops;
      limit = limit;
      id = id;
      origin = origin;
      hop = hop;
      expires = expires;
      i = i;
      o = o;
      p = p;
      e = e;
      whole = layout_join v id origin hop hops limit expires w₁ w₂ w₃ w₄;
    }

layout_bytes :
    (hops limit : ℕ) (id origin hop expires : List ℕ)
    → All IsByte (layout id origin hop hops limit expires)
    → All IsByte expires
layout_bytes hops limit id origin hop expires those =
    (All-append_right IsByte hop _
      (All-append_right IsByte origin _ (All-append_right IsByte id _ those))).1.1

frame_encoded :
    (v hops limit : ℕ) (id origin hop expires : List ℕ)
    → length id ≡ 16
    → length origin ≡ 32
    → length hop ≡ 32
    → length expires ≡ 8
    → All IsByte expires
    → (f : RelayFrame) → v ≡ 1
    → f ≡ frame_with id origin hop hops limit expires
    → IsTypedFrame f × (v ∷ layout id origin hop hops limit expires ≡ encode_frame f)
unfolding encode_frame
frame_encoded v hops limit id origin hop expires i o p e those f one same =
    let back : be_bytes 8 (from_be 0 expires) ≡ expires =
      ap (λ n. be_bytes n (from_be 0 expires)) (sym e) ∙ be_bytes-from_be expires those in
    rw (one, same) (record { id_sized = i; origin_sized = o; hop_sized = p }, rw back)

decode_frame_inv :
    (bytes : List ℕ) (f : RelayFrame)
    → All IsByte bytes
    → decode_frame bytes ≡ ok f
    → (bytes ≡ encode_frame f) × IsTypedFrame f × HopsInRange f
unfolding encode_frame
decode_frame_inv bytes f those h =
    let l = bytes-Layout bytes (decode_frame-length bytes f h) in
    let run =
      sym (decode-layout l.version l.hops l.limit l.id l.origin l.hop l.expires l.i l.o l.p l.e)
      ∙ ap decode_frame (sym l.whole)
      ∙ h in
    let (v, same, ranges) =
      layout_inv l.version l.hops l.limit l.id l.origin l.hop l.expires f run in
    let bytes_left = subst (All IsByte) l.whole those in
    let (typed, whole) =
      frame_encoded l.version l.hops l.limit l.id l.origin l.hop l.expires l.i l.o l.p l.e
        (layout_bytes l.hops l.limit l.id l.origin l.hop l.expires bytes_left.1) f v same in
    (l.whole ∙ whole, typed, ranges)

-- A byte string decodes to a relay frame exactly if it is the frame's encoding and the frame's hops
-- and lifetime are in range.
pub decode_frame_iff :
    (bytes : List ℕ) (f : RelayFrame)
    → All IsByte bytes
    → (decode_frame bytes ≡ ok f) ↔ ((bytes ≡ encode_frame f) × IsTypedFrame f × HopsInRange f)
decode_frame_iff bytes f those =
    (decode_frame_inv bytes f those, λ h. rw (h.0) (decode-encode_frame f h.1 h.2))
