-- ===== src/Protocol/Roster/Tests.antt =====
-- A group of one member, whose certificate is good.
use mesh_lab.Prelude.{ℕ, ◌≡◌, refl, true, List, [], ◌∷◌, ◌++◌, replicate, ok}
use mesh_lab.Prelude.OrdMap.{insert, contains_key}
use mesh_lab.Codec.{
  byte, value, read_be, long_value, array, string, byte_string, fixed, end, uint, new_reader, head,
  head_bytes, write_array, write_uint, write_bytes, finish,
}
use mesh_lab.Codec.Words.{be_bytes}
use mesh_lab.Crypto.{Ed25519, Scope, signature_input, prefix, verify, sign, identity_key_id}
use mesh_lab.Protocol.Signed.{time, version, signed, signed_parts, domain_hash}
use mesh_lab.Protocol.Certificate.{CertificateClaims, cert_body, read_claims, issue_certificate}
use mesh_lab.Protocol.Roster.{VerifiedRoster, admit, admit_all, verify_roster, roster_bytes}
use mesh_lab.Protocol.Roster.Certified.{IsCertified, verify_roster-IsCertified}

abbrev trusting : Ed25519 (List ℕ)
trusting = record {
  verifying_key = λ k. k;
  signature_of = λ k m. replicate 64 7;
  is_key = λ k. true;
  verify_strict = λ k m s. true;
}

abbrev sixes : List ℕ → List ℕ
sixes b = replicate 32 6

abbrev leader : List ℕ
leader = replicate 32 4

abbrev group : Scope
group = record { group = replicate 32 8; epoch = 1 }

abbrev claims : CertificateClaims
claims = record {
  group = replicate 32 8;
  member = record { id = replicate 32 1 };
  signing_key = replicate 32 1;
  delivery_key = replicate 32 2;
  valid_from = 3;
  valid_until = 100;
  epoch = 1;
  serial = 5;
}

abbrev certificate : List ℕ
certificate =
    0x82
    ∷ 0x58
    ∷ 177
    ∷ (0x8a
        ∷ 1
        ∷ 0x58
        ∷ 32
        ∷ (replicate 32 8
            ++ (0x58
                ∷ 32
                ∷ (replicate 32 1
                    ++ (0x58
                        ∷ 32
                        ∷ (replicate 32 1
                            ++ (0x58
                                ∷ 32
                                ∷ (replicate 32 2
                                    ++ (3
                                        ∷ 0x18
                                        ∷ 100
                                        ∷ 1
                                        ∷ 5
                                        ∷ 0x58
                                        ∷ 32
                                        ∷ (replicate 32 6 ++ (0x58 ∷ 64 ∷ replicate 64 7)))))))))))

issued : issue_certificate sixes trusting leader claims ≡ ok certificate
unfolding issue_certificate cert_body sign signature_input prefix signed identity_key_id be_bytes
    head head_bytes write_array write_uint write_bytes finish
issued = refl

abbrev roster : VerifiedRoster
roster = record {
  scope = group;
  members = (record { id = replicate 32 1 }, claims) ∷ [];
  digest = replicate 32 6;
  valid_from = 3;
  valid_until = 100;
}

verified : verify_roster trusting sixes leader group (certificate ∷ []) (9 ∷ []) 50 ≡ ok roster
unfolding verify_roster admit_all admit signed_parts read_claims version time cert_body verify
    signature_input prefix identity_key_id domain_hash roster_bytes contains_key insert new_reader
    array byte_string fixed string value byte read_be long_value uint end be_bytes head head_bytes
    write_array write_uint write_bytes finish
verified = refl

verify_roster-IsCertified_example :
    IsCertified trusting sixes leader group (certificate ∷ []) (9 ∷ []) 50 roster
verify_roster-IsCertified_example =
    verify_roster-IsCertified trusting sixes leader group (certificate ∷ []) (9 ∷ []) 50 roster
      verified
