-- ===== src/Protocol/Handoff/Tests.antt =====
-- An authority that hands its group over.
use mesh_lab.Prelude.{ℕ, ◌≡◌, ◌↔◌, refl, List, ◌∷◌, ◌++◌, replicate, ok, arith}
use mesh_lab.Codec.{head, head_bytes, write_array, write_uint, write_bytes, finish}
use mesh_lab.Codec.Words.{be_bytes}
use mesh_lab.Crypto.{Scope, signature_input, prefix, sign}
use mesh_lab.Crypto.Toy.{toy, toy-IsEd25519}
use mesh_lab.Protocol.Signed.{signed}
use mesh_lab.Protocol.Handoff.{
  AuthorityHandoff, handoff_body, encode_handoff, decode_handoff, verify_for,
  issue_authority_handoff,
}
use mesh_lab.Protocol.Handoff.Succession.{Succeeds, verify_for_iff, issued_succeeds}

abbrev group : Scope
group = record { group = replicate 32 8; epoch = 4 }

abbrev handoff : AuthorityHandoff
handoff = record {
  prior_authority = replicate 32 1;
  prior_scope = group;
  prior_roster_digest = replicate 32 6;
  next_authority = replicate 32 2;
  next_epoch = 5;
  valid_until = 60;
  signature = replicate 64 1;
}

abbrev handoff_bytes : List ℕ
handoff_bytes =
    0x82
    ∷ 0x58
    ∷ 142
    ∷ (0x88
        ∷ 1
        ∷ 0x58
        ∷ 32
        ∷ (replicate 32 1
            ++ (0x58
                ∷ 32
                ∷ (replicate 32 8
                    ++ (4
                        ∷ 0x58
                        ∷ 32
                        ∷ (replicate 32 6
                            ++ (0x58
                                ∷ 32
                                ∷ (replicate 32 2
                                    ++ (5 ∷ 0x18 ∷ 60 ∷ 0x58 ∷ 64 ∷ replicate 64 1)))))))))

issued : issue_authority_handoff toy 1 group (replicate 32 6) (replicate 32 2) 60 ≡ ok handoff
unfolding issue_authority_handoff handoff_body sign signature_input prefix be_bytes head head_bytes
    write_array write_uint write_bytes finish
issued = refl

encoded : encode_handoff handoff ≡ ok handoff_bytes
unfolding encode_handoff handoff_body signed be_bytes head head_bytes write_array write_uint
    write_bytes finish
encoded = refl

verify_for_iff_example :
    (verify_for toy handoff (replicate 32 1) group (replicate 32 6) 59 ≡ ok tt)
    ↔ Succeeds toy (replicate 32 1) group (replicate 32 6) 59 handoff
verify_for_iff_example = verify_for_iff toy (replicate 32 1) group (replicate 32 6) 59 handoff

issued_succeeds_example :
    ((bytes : List ℕ) × (encode_handoff handoff ≡ ok bytes) × (decode_handoff bytes ≡ ok handoff))
    × (verify_for toy handoff (replicate 32 1) group (replicate 32 6) 59 ≡ ok tt)
issued_succeeds_example =
    issued_succeeds toy 1 group (replicate 32 6) (replicate 32 2) 60 59 handoff toy-IsEd25519 refl
      refl refl issued (omega arith)
