-- ===== src/Link/Framing.antt =====
-- The wire envelope is exact: a byte string is a frame's envelope or it is refused.
use mesh_lab.Prelude.{
  ℕ, ◌+◌, ◌*◌, ◌/◌, ◌%◌, ◌^◌, ◌≤◌, ◌≡◌, refl, ◌↔◌, List, [], ◌∷◌, length, ok, arith, All,
}
use mesh_lab.Durable.{IsByte}
use mesh_lab.Codec.Words.{be_bytes, from_be}
use mesh_lab.Link.{Frame, new_frame, encode, decode, max_frame_bytes}

-- The frames that `Frame::new` constructs.
abbrev pub IsFrame : Frame → Type 0
IsFrame f = (1 ≤ length f.bytes) × (length f.bytes ≤ max_frame_bytes)

pub new_frame_iff :
    (bytes : List ℕ) (f : Frame) → (new_frame bytes ≡ ok f) ↔ ((f.bytes ≡ bytes) × IsFrame f)
unfolding new_frame
new_frame_iff bytes f = (λ h. ground (arith, h), λ h. ground (arith, h))

decode-encode : (f : Frame) → IsFrame f → decode (encode f) ≡ ok f
unfolding decode encode be_bytes from_be
decode-encode f h =
    let low : (length f.bytes % 2 ^ 16) / 256 % 256 * 256 + length f.bytes % 2 ^ 16 % 256
        ≡ length f.bytes =
      omega (arith, h.1) in
    ground (arith, low, h)

decode_inv :
    (bytes : List ℕ) (f : Frame)
    → All IsByte bytes
    → decode bytes ≡ ok f
    → (bytes ≡ encode f) × IsFrame f
unfolding decode encode be_bytes from_be
decode_inv [] f those h = cc
decode_inv (a ∷ []) f those h = cc
decode_inv (a ∷ b ∷ []) f those h = cc
decode_inv (a ∷ b ∷ c ∷ rest) f those h =
    let version : a ≡ 1 = ground (arith, h) in
    let body : f.bytes ≡ rest = ground (arith, h) in
    let announced : length rest ≡ (0 * 256 + b) * 256 + c = ground (arith, h) in
    let inside : (1 ≤ length rest) × (length rest ≤ max_frame_bytes) =
      (ground (arith, h), ground (arith, h)) in
    let high : length rest % 2 ^ 16 / 256 % 256 ≡ b = omega (arith, those) in
    let low : length rest % 2 ^ 16 % 256 ≡ c = omega (arith, those) in
    rw (version, body, high, low) (refl, inside)

-- A byte string decodes to a frame exactly if it is the frame's envelope: version, length and the
-- 1 to 4160 bytes that the length announces, with nothing after them.
pub frame_decode_iff :
    (bytes : List ℕ) (f : Frame)
    → All IsByte bytes
    → (decode bytes ≡ ok f) ↔ ((bytes ≡ encode f) × IsFrame f)
frame_decode_iff bytes f those = (decode_inv bytes f those, λ h. rw (h.0) (decode-encode f h.1))
