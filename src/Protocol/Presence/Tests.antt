-- ===== src/Protocol/Presence/Tests.antt =====
-- A member that signs its presence.
use mesh_lab.Prelude.{ℕ, ◌≡◌, refl, List, ◌∷◌, ◌++◌, replicate, ok, arith}
use mesh_lab.Prelude.OrdMap.{get}
use mesh_lab.Codec.{head, head_bytes, write_array, write_uint, write_bytes, finish}
use mesh_lab.Codec.Words.{be_bytes}
use mesh_lab.Crypto.{signature_input, prefix, sign}
use mesh_lab.Crypto.Toy.{toy, toy-IsEd25519}
use mesh_lab.Protocol.Example.{member, roster}
use mesh_lab.Protocol.Signed.{signed, time}
use mesh_lab.Protocol.Roster.{validate_at, member_of, signing_key_of}
use mesh_lab.Protocol.Presence.{PresenceRecord, presence_body, sign_presence, authenticate_presence}
use mesh_lab.Protocol.Presence.Attested.{signed_accepted}

abbrev here : PresenceRecord
here = record { member = member; incarnation = 1; sequence = 9; expires_at = 60 }

abbrev claim_bytes : List ℕ
claim_bytes =
    0x82
    ∷ 0x58
    ∷ 75
    ∷ (0x87
        ∷ 1
        ∷ 0x58
        ∷ 32
        ∷ (replicate 32 8
            ++ (1
                ∷ 0x58
                ∷ 32
                ∷ (replicate 32 1 ++ (1 ∷ 9 ∷ 0x18 ∷ 60 ∷ 0x58 ∷ 64 ∷ replicate 64 1)))))

signed_here : sign_presence toy 1 here roster 30 ≡ ok claim_bytes
unfolding sign_presence validate_at time signing_key_of member_of presence_body sign signature_input
    prefix signed be_bytes head head_bytes write_array write_uint write_bytes finish get
signed_here = refl

signed_accepted_example : authenticate_presence toy claim_bytes roster 50 ≡ ok here
signed_accepted_example =
    signed_accepted toy 1 roster 30 50 here claim_bytes toy-IsEd25519 refl refl signed_here
      (omega arith) (omega arith)
