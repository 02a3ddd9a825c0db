-- ===== src/Session/Tests.antt =====
-- Two members of a group in one session, over a transport that appends a tag of 16 zeros.
use mesh_lab.Prelude.{
  ℕ, ◌-◌, ◌≤◌, ◌≡◌, ◌≢◌, refl, ap, true, false, not, List, [], ◌∷◌, ◌++◌, some, none, length, take,
  replicate, length-append, take-length_append, ok, reject, arith,
}
use mesh_lab.Durable.{MemberId}
use mesh_lab.Codec.{
  byte, value, read_be, long_value, array, string, byte_string, fixed, end, new_reader, head,
  head_bytes, write_array, write_uint, write_bytes, finish,
}
use mesh_lab.Codec.Words.{be_bytes, from_be}
use mesh_lab.Crypto.{Ed25519, Scope, signature_input, prefix, sign, verify}
use mesh_lab.Prelude.OrdMap.{get}
use mesh_lab.Protocol.Roster.{VerifiedRoster, validate_at, member_of, signing_key_of}
use mesh_lab.Protocol.Signed.{time}
use mesh_lab.Protocol.Certificate.{CertificateClaims}
use mesh_lab.Session.Noise.{Snow, initiator, responder, proof_body, max_frame}
use mesh_lab.Session.Packets.{check, accept, default_replay, replay}
use mesh_lab.Session.Packets.Window.{Window, opens, accepts, fresh, check_lem}
use mesh_lab.Session.{
  Session, payload, send, receive, frame, proof_frame, authentication_frame, confirm, opened,
  nonce_of,
}
use mesh_lab.Session.Handshake
use mesh_lab.Session.Handshake.{Handshake}
use mesh_lab.Session.Moves.{Call, authenticates, sends, receives, emitted, arrived, call, Vouched}
use mesh_lab.Session.Once.{IsValid, run, frames_once, arrivals_once}
use mesh_lab.Session.Peers.{payload-Vouched}
use mesh_lab.Session.Delivery.{Paired, Ready, Ends, delivered}

-- Packets 1 and 5 were accepted.
two_packets : Window (5 ∷ 1 ∷ []) (accept 5 (accept 1 default_replay))
unfolding check accept
two_packets = accepts 5 (accepts 1 opens refl) refl

check_lem_example :
    check 5 (accept 5 (accept 1 default_replay)) ≡ reject (not (fresh 5 (5 ∷ 1 ∷ []))) replay
check_lem_example = check_lem 5 two_packets

abbrev tag : List ℕ
tag = replicate 16 0

abbrev pub plain : Snow (Unit {0}) (Unit {0})
plain = record {
  build = λ role key prologue entropy. some tt;
  is_handshake_finished = λ h. true;
  is_my_turn = λ h. false;
  write_message = λ h. none;
  read_message = λ bytes h. none;
  handshake_hash = λ h. replicate 32 3;
  into_transport = λ h. some tt;
  seal = λ t n clear. some (clear ++ tag);
  open_sealed = λ t n sealed. some (take (length sealed - 16) sealed);
}

-- A key is its public key, and every signature is good.
abbrev pub trusting : Ed25519 (List ℕ)
trusting = record {
  verifying_key = λ k. k;
  signature_of = λ k m. replicate 64 7;
  is_key = λ k. true;
  verify_strict = λ k m s. true;
}

abbrev pub alice : MemberId
alice = record { id = replicate 32 1 }

abbrev pub bob : MemberId
bob = record { id = replicate 32 2 }

abbrev pub group : Scope
group = record { group = replicate 32 8; epoch = 1 }

abbrev claims : MemberId → CertificateClaims
claims m = record {
  group = replicate 32 8;
  member = m;
  signing_key = m.id;
  delivery_key = m.id;
  valid_from = 0;
  valid_until = 100;
  epoch = 1;
  serial = 1;
}

abbrev pub roster : VerifiedRoster
roster = record {
  scope = group;
  members = (alice, claims alice) ∷ (bob, claims bob) ∷ [];
  digest = replicate 32 9;
  valid_from = 0;
  valid_until = 100;
}

abbrev shaken : Handshake (Unit {0})
shaken = record {
  state = some tt;
  config = record { role = initiator; local = alice; expected_peer = some bob; now = 5 };
  scope = group;
  roster = replicate 32 9;
  deadline = 35;
}

abbrev opened_session : Session (Unit {0})
opened_session = record {
  state = some tt;
  id = replicate 32 3;
  scope = group;
  roster = replicate 32 9;
  role = initiator;
  local = alice;
  expected = some bob;
  peer = none;
  sent_auth = false;
  next = 1;
  replay = default_replay;
  started = 5;
  deadline = 35;
}

finished : Handshake.finish plain roster 6 shaken ≡ ok opened_session
unfolding Handshake.finish validate_at time
finished = refl

abbrev pub ready_session : Session (Unit {0})
ready_session = record opened_session { peer = some bob; sent_auth = true }

ready_session-IsValid : IsValid ready_session
ready_session-IsValid = record {
  sized = refl;
  positive = omega arith;
  bounded = omega arith;
  received = [];
  window = opens;
}

-- A frame of the session with the packet number `n` and one byte.
abbrev data_frame : ℕ → List ℕ
data_frame n = 1 ∷ (replicate 32 3 ++ (replicate 7 0 ++ (n ∷ 1 ∷ 77 ∷ tag)))

first_sent :
    call plain trusting (sends (77 ∷ []) roster 7) ready_session
    ≡ (emitted (data_frame 1), record ready_session { next = 2 })
unfolding call send frame be_bytes validate_at time
first_sent = refl

second_sent :
    call plain trusting (sends (77 ∷ []) roster 7) (record ready_session { next = 2 })
    ≡ (emitted (data_frame 2), record ready_session { next = 3 })
unfolding call send frame be_bytes validate_at time
second_sent = refl

frames_once_example : nonce_of (data_frame 2) ≢ nonce_of (data_frame 1)
unfolding run
frames_once_example =
    frames_once plain trusting ready_session (record ready_session { next = 2 })
      (record ready_session { next = 3 }) (sends (77 ∷ []) roster 7) (sends (77 ∷ []) roster 7) []
      (data_frame 1) (data_frame 2) ready_session-IsValid first_sent second_sent

first_received :
    call plain trusting (receives (data_frame 4) roster 7) ready_session
    ≡ (arrived 4 (payload (77 ∷ [])), record ready_session { replay = accept 4 default_replay })
unfolding call receive opened from_be check accept validate_at time
first_received = refl

second_received :
    call plain trusting
      (receives (data_frame 6) roster 7)
      (record ready_session { replay = accept 4 default_replay })
    ≡ (
      arrived 6 (payload (77 ∷ [])),
      record ready_session { replay = accept 6 (accept 4 default_replay) },
    )
unfolding call receive opened from_be check accept validate_at time
second_received = refl

arrivals_once_example : ◌≢◌ {A = ℕ} 6 4
unfolding run
arrivals_once_example =
    arrivals_once plain trusting ready_session
      (record ready_session { replay = accept 4 default_replay })
      (record ready_session { replay = accept 6 (accept 4 default_replay) })
      (receives (data_frame 4) roster 7) (receives (data_frame 6) roster 7) [] 4 6
      (payload (77 ∷ [])) (payload (77 ∷ [])) ready_session-IsValid first_received second_received

-- What Bob sends first: his identifier and his signature.
abbrev bob_frame : List ℕ
bob_frame =
    1
    ∷ (replicate 32 3
        ++ (replicate 8 0
            ++ (0 ∷ 0x82 ∷ 0x58 ∷ 32 ∷ (replicate 32 2 ++ (0x58 ∷ 64 ∷ (replicate 64 7 ++ tag))))))

abbrev greeting : List (Call (List ℕ))
greeting = authenticates (replicate 32 1) roster 7 ∷ receives bob_frame roster 8 ∷ []

abbrev met_session : Session (Unit {0})
met_session = record opened_session {
  peer = some bob;
  sent_auth = true;
  replay = accept 0 default_replay;
}

met : run plain trusting greeting opened_session ≡ met_session
unfolding run call authentication_frame proof_frame frame receive opened confirm get member_of
    signing_key_of validate_at time sign verify signature_input prefix proof_body be_bytes from_be
    new_reader array fixed byte_string string value byte read_be long_value end head head_bytes
    write_array write_uint write_bytes finish check accept
met = refl

met_heard : call plain trusting (receives (data_frame 4) roster 9) met_session ≡ (
  arrived 4 (payload (77 ∷ [])),
  record met_session { replay = accept 4 (accept 0 default_replay) },
)
unfolding call receive opened from_be check accept validate_at time
met_heard = refl

met_then_heard :
    call plain trusting
      (receives (data_frame 4) roster 9)
      (run plain trusting greeting opened_session)
    ≡ (
      arrived 4 (payload (77 ∷ [])),
      record met_session { replay = accept 4 (accept 0 default_replay) },
    )
met_then_heard = rw met met_heard

payload-Vouched_example :
    (m : MemberId) × ((run plain trusting greeting opened_session).peer ≡ some m)
    × Vouched trusting (run plain trusting greeting opened_session) m
payload-Vouched_example =
    payload-Vouched plain trusting roster 6 shaken opened_session
      (record met_session { replay = accept 4 (accept 0 default_replay) }) greeting
      (receives (data_frame 4) roster 9) 4 (77 ∷ []) finished met_then_heard

abbrev pub bob_session : Session (Unit {0})
bob_session = record ready_session {
  role = responder;
  local = bob;
  expected = none;
  peer = some alice;
}

untag : (clear : List ℕ) → take (length (clear ++ tag) - 16) (clear ++ tag) ≡ clear
untag clear =
    let n : length (clear ++ tag) - 16 ≡ length clear = omega (arith, length-append clear tag) in
    rw n (take-length_append clear tag)

pub plain-Paired : Paired plain tt tt
plain-Paired = record {
  seals = λ n clear small. (clear ++ tag, refl, ap some (untag clear), length-append clear tag);
}

new_to_bob : check 1 default_replay ≡ ok tt
unfolding check
new_to_bob = refl

pub both-Ends : Ends plain ready_session bob_session
both-Ends = record {
  near = tt;
  far = tt;
  near_state = refl;
  far_state = refl;
  paired = plain-Paired;
  same = refl;
  sized = refl;
  first = omega arith;
  room = omega arith;
  fresh = new_to_bob;
}

roster_valid : validate_at 7 roster ≡ ok tt
unfolding validate_at time
roster_valid = refl

pub alice-Ready : Ready roster 7 ready_session
alice-Ready = record { known = refl; begun = omega arith; pinned = refl; valid = roster_valid }

pub bob-Ready : Ready roster 7 bob_session
bob-Ready = record { known = refl; begun = omega arith; pinned = refl; valid = roster_valid }

delivered_example :
    (f : List ℕ) × (send plain (77 ∷ []) roster 7 ready_session
      ≡ (ok f, record ready_session { next = 2 }))
    × (1 ≤ length f)
    × (length f ≤ max_frame)
    × (receive plain trusting f roster 7 bob_session
        ≡ (ok (payload (77 ∷ [])), record bob_session { replay = accept 1 default_replay }))
delivered_example =
    delivered plain trusting ready_session bob_session (77 ∷ []) roster roster 7 7 both-Ends
      alice-Ready bob-Ready (omega arith) (omega arith)
