-- ===== src/Session/Noise.antt =====
-- crates/mesh-session/src/lib.rs: what a session takes from the Noise library, and what both sides
-- sign.
use mesh_lab.Prelude.{ℕ, ◌+◌, Bool, List, [], ◌∷◌, Option}
use mesh_lab.Durable.{MemberId}
use mesh_lab.Crypto.{Scope}
use mesh_lab.Codec.{default_writer, write_array, write_uint, write_bytes, write_text, finish}

abbrev pub max_payload : ℕ
max_payload = 4096

abbrev pub max_frame : ℕ
max_frame = 1 + 32 + 8 + 1 + max_payload + 16

abbrev pub max_packets : ℕ
max_packets = 1048576

abbrev pub handshake_timeout : ℕ
handshake_timeout = 30

pub data Role : Type 0 where
  initiator responder : Role

abbrev pub role_code : Role → ℕ
role_code initiator = 0
role_code responder = 1

abbrev pub opposite : Role → Role
opposite initiator = responder
opposite responder = initiator

-- The library's states `H` of a handshake and `T` of a stateless transport. A call that fails gives
-- `none`.
pub record Snow (H T : Type 0) : Type 0 where
  -- The private key, the prologue and the entropy.
  pub build : Role → List ℕ → List ℕ → List ℕ → Option H
  pub is_handshake_finished : H → Bool
  pub is_my_turn : H → Bool
  -- The message with the next state, and the payload with the next state.
  pub write_message : H → Option (List ℕ × H)
  pub read_message : List ℕ → H → Option (List ℕ × H)
  pub handshake_hash : H → List ℕ
  pub into_transport : H → Option T
  pub seal : T → ℕ → List ℕ → Option (List ℕ)
  pub open_sealed : T → ℕ → List ℕ → Option (List ℕ)

-- "MeshLab/Session/v1"
abbrev pub session_label : List ℕ
session_label =
    0x4d ∷ 0x65 ∷ 0x73 ∷ 0x68 ∷ 0x4c ∷ 0x61 ∷ 0x62 ∷ 0x2f ∷ 0x53 ∷ 0x65 ∷ 0x73 ∷ 0x73 ∷ 0x69 ∷ 0x6f
    ∷ 0x6e ∷ 0x2f ∷ 0x76 ∷ 0x31 ∷ []

unfoldable pub prologue : Scope → List ℕ
unfolding write_array write_uint write_bytes write_text finish
prologue scope = finish (
    write_uint max_payload (
      write_uint 1 (
        write_uint scope.epoch (
          write_bytes scope.group
            (write_uint 1 (write_text session_label (write_array 6 default_writer)))))))

unfoldable pub proof_body : Scope → List ℕ → MemberId → Role → List ℕ
unfolding write_array write_uint write_bytes finish
proof_body scope session member role = finish (
    write_uint max_payload (
      write_uint 1 (
        write_uint (role_code role) (
          write_bytes member.id (
            write_bytes session (
              write_uint scope.epoch
                (write_bytes scope.group (write_uint 1 (write_array 8 default_writer)))))))))
