-- ===== src/Protocol/Enrollment/Tests.antt =====
-- A request of a device whose signatures are toy.
use mesh_lab.Prelude.{ℕ, ◌≡◌, ◌↔◌, refl, List, ◌∷◌, ◌++◌, some, replicate, ok, All, arith}
use mesh_lab.Durable.{IsByte}
use mesh_lab.Codec.{head, head_bytes, write_array, write_uint, write_bytes, finish}
use mesh_lab.Codec.Words.{be_bytes}
use mesh_lab.Crypto.{Scope, signature_input, prefix, sign}
use mesh_lab.Crypto.Toy.{toy}
use mesh_lab.Protocol.Signed.{signed}
use mesh_lab.Protocol.Enrollment.{
  EnrollmentRequest, enrollment_body, create_enrollment_request, verify_enrollment_request,
}
use mesh_lab.Protocol.Enrollment.Requests.{Accepts, verify_enrollment_iff}

abbrev group : Scope
group = record { group = replicate 32 8; epoch = 1 }

abbrev request : EnrollmentRequest
request = record {
  scope = group;
  member = record { id = replicate 32 1 };
  signing_key = replicate 32 1;
  delivery_key = replicate 32 2;
  valid_from = 3;
  valid_until = 100;
  nonce = replicate 16 5;
}

abbrev request_bytes : List ℕ
request_bytes =
    0x82
    ∷ 0x58
    ∷ 159
    ∷ (0x89
        ∷ 1
        ∷ 0x58
        ∷ 32
        ∷ (replicate 32 8
            ++ (1
                ∷ 0x58
                ∷ 32
                ∷ (replicate 32 1
                    ++ (0x58
                        ∷ 32
                        ∷ (replicate 32 1
                            ++ (0x58
                                ∷ 32
                                ∷ (replicate 32 2
                                    ++ (3
                                        ∷ 0x18
                                        ∷ 100
                                        ∷ 0x50
                                        ∷ (replicate 16 5 ++ (0x58 ∷ 64 ∷ replicate 64 1)))))))))))

created :
    create_enrollment_request toy 1 (replicate 32 2) group 3 100 (some (replicate 16 5))
    ≡ ok request_bytes
unfolding create_enrollment_request enrollment_body sign signature_input prefix signed be_bytes head
    head_bytes write_array write_uint write_bytes finish
created = refl

request_bytes-IsByte : All IsByte request_bytes
request_bytes-IsByte = omega arith

verify_enrollment_iff_example :
    (verify_enrollment_request toy request_bytes 50 ≡ ok request)
    ↔ Accepts toy request_bytes 50 request
verify_enrollment_iff_example =
    verify_enrollment_iff toy request_bytes 50 request request_bytes-IsByte
