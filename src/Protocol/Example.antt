-- ===== src/Protocol/Example.antt =====
-- A roster of one member, on which the code of crates/mesh-protocol/src/lib.rs is run.
use mesh_lab.Prelude.{[], ◌∷◌, replicate}
use mesh_lab.Durable.{MemberId}
use mesh_lab.Protocol.Certificate.{CertificateClaims}
use mesh_lab.Protocol.Roster.{VerifiedRoster}

abbrev pub member : MemberId
member = record { id = replicate 32 1 }

abbrev pub claims : CertificateClaims
claims = record {
  group = replicate 32 8;
  member = member;
  signing_key = replicate 32 1;
  delivery_key = replicate 32 2;
  valid_from = 3;
  valid_until = 100;
  epoch = 1;
  serial = 5;
}

abbrev pub roster : VerifiedRoster
roster = record {
  scope = record { group = replicate 32 8; epoch = 1 };
  members = (member, claims) ∷ [];
  digest = replicate 32 6;
  valid_from = 3;
  valid_until = 100;
}
