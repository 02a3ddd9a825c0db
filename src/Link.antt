-- ===== src/Link.antt =====
-- crates/mesh-link/src/lib.rs: the bounded frame at the boundary to a native transport.
pub mod Framing
mod Tests
use mesh_lab.Prelude.{
  ℕ, ◌+◌, ◌%◌, ◌^◌, ◌≡◌, Bool, not, ◌||◌, List, [], ◌∷◌, ◌++◌, length, get_or, drop, ltb, ◌==◌, ok,
  err, ◌>>=◌, ◌>>◌, reject,
}
use mesh_lab.Codec.Words.{be_bytes, from_be}
pub use mesh_lab.Prelude.{Result}

abbrev pub wire_version : ℕ
wire_version = 1

abbrev pub max_frame_bytes : ℕ
max_frame_bytes = 4160

abbrev pub header_bytes : ℕ
header_bytes = 3

pub data Error : Type 0 where
  invalid_frame unavailable resource_pressure : Error

pub record Frame : Type 0 where
  pub bytes : List ℕ

unfoldable pub new_frame : List ℕ → Result Error Frame
new_frame bytes = do
  reject (length bytes == 0 || ltb max_frame_bytes (length bytes)) invalid_frame
  ok (record { bytes = bytes })

-- `(self.0.len() as u16).to_be_bytes()` keeps the low 16 bits of the length.
pub encode : Frame → List ℕ
encode f = wire_version ∷ (be_bytes 2 (length f.bytes % 2 ^ 16) ++ f.bytes)

pub decode : List ℕ → Result Error Frame
unfolding new_frame
decode bytes = do
  reject (ltb (length bytes) header_bytes || not (get_or bytes 0 0 == wire_version)) invalid_frame
  let len = from_be 0 (get_or bytes 1 0 ∷ get_or bytes 2 0 ∷ [])
  reject (len == 0 || ltb max_frame_bytes len || not (length bytes == header_bytes + len))
      invalid_frame
  new_frame (drop header_bytes bytes)

pub record LinkId : Type 0 where
  pub id : ℕ

pub data PortEvent : Type 0 where
  link_up : LinkId → PortEvent
  frame : LinkId → Frame → PortEvent
  link_down : LinkId → PortEvent
