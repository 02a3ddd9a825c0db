-- ===== src/Session.antt =====
-- crates/mesh-session/src/lib.rs: `Session`, an authenticated channel of bounded datagrams between
-- two certified members.
pub mod Noise
pub mod Packets
pub mod Handshake
pub mod Moves
pub mod Once
pub mod Peers
pub mod Delivery
pub mod Tests
use mesh_lab.Prelude.{
  ℕ, ◌+◌, ◌-◌, Bool, true, false, not, ◌&&◌, ◌||◌, List, [], ◌∷◌, ◌++◌, Option, none, some, length,
  get_elem?, get_or, take, drop, ltb, leb, ◌==◌, if◌then◌else◌, Result, ok, err, ◌>>=◌, ◌>>◌,
  reject, ok_or,
}
use mesh_lab.Prelude.Ord.{equal, bytes_ord}
use mesh_lab.Durable.{MemberId, member_ord}
use mesh_lab.Codec.{new_reader, array, fixed, end, default_writer, write_array, write_bytes, finish}
use mesh_lab.Codec.Words.{be_bytes, from_be}
use mesh_lab.Crypto.{Scope, Ed25519, Domain, sign, verify}
use mesh_lab.Crypto
use mesh_lab.Protocol.Roster.{VerifiedRoster, validate_at, signing_key_of}
use mesh_lab.Session.Noise.{Snow, Role, opposite, proof_body, max_payload, max_frame, max_packets}
use mesh_lab.Session.Packets.{
  Error, invalid_input, wrong_phase, authentication, replay, expired, closed, exhausted, Replay,
  check, accept,
}

-- `auth`: any error of another crate.
abbrev pub auth {ℓ} : {E : Type 0} {A : Type ℓ} → Result E A → Result Error A
auth (ok a) = ok a
auth (err e) = err authentication

abbrev pub is_some {ℓ} : {A : Type ℓ} → Option A → Bool
is_some none = false
is_some (some a) = true

abbrev pub is_err {ℓ} : {E : Type 0} {A : Type ℓ} → Result E A → Bool
is_err (ok a) = false
is_err (err e) = true

pub record Session (T : Type 0) : Type 0 where
  pub state : Option T
  pub id : List ℕ
  pub scope : Scope
  pub roster : List ℕ
  pub role : Role
  pub local : MemberId
  pub expected : Option MemberId
  pub peer : Option MemberId
  pub sent_auth : Bool
  pub next : ℕ
  pub replay : Replay
  pub started : ℕ
  pub deadline : ℕ

pub data Incoming : Type 0 where
  authenticated : MemberId → Incoming
  payload : List ℕ → Incoming

-- What a call answers, and the session that it leaves.
abbrev pub Answer : Type 0 → Type 0 → Type 0
Answer A T = Result Error A × Session T

-- `first() == Some(&b)`
abbrev pub starts_with : ℕ → List ℕ → Bool
starts_with b [] = false
starts_with b (x ∷ xs) = x == b

-- `self.expected.is_some_and(|id| id != member)`
abbrev pub unexpected : Option MemberId → MemberId → Bool
unexpected none m = false
unexpected (some id) m = not (equal id m)

-- `u64::from_be_bytes(frame[33..41])`
abbrev pub nonce_of : List ℕ → ℕ
nonce_of frame = from_be 0 (take 8 (drop 33 frame))

module _ {T : Type 0} where
  abbrev pub is_authenticated : Session T → Bool
  is_authenticated s = is_some s.state && (s.sent_auth && is_some s.peer)

  abbrev pub close : Session T → Session T
  close s = record s { state = none; peer = none }

  -- `self.check(roster, now)?; ..`
  abbrev pub checked :
      {A : Type 0} → VerifiedRoster → ℕ → Session T → (Session T → Answer A T) → Answer A T
  checked roster now s next =
      if not (is_some s.state)
      then (err closed, s)
      else if ltb now s.started || (not (is_authenticated s) && leb s.deadline now)
      then (err expired, close s)
      else if not (equal roster.digest s.roster) || is_err (validate_at now roster)
      then (err authentication, close s)
      else next s

  abbrev pub malformed : List ℕ → Session T → Bool
  malformed frame s =
      ltb (length frame) 58
      || ltb max_frame (length frame)
      || not (get_or frame 0 0 == 1)
      || not (equal (take 32 (drop 1 frame)) s.id)

  abbrev pub receive_data : ℕ → List ℕ → Session T → Answer Incoming T
  receive_data n clear s =
      if not (starts_with 1 clear) || ltb (length clear) 2 || ltb (max_payload + 1) (length clear)
      then (err invalid_input, close s)
      else (ok (payload (drop 1 clear)), record s { replay = accept n s.replay })

  abbrev pub confirmed_by : Result Error MemberId → Session T → Answer Incoming T
  confirmed_by (ok member) s =
      (ok (authenticated member), record s { peer = some member; replay = accept 0 s.replay })
  confirmed_by (err e) s = (err e, close s)

  -- `let v = result?;`
  abbrev pub passed : {A B : Type 0} → Result Error A → Session T → (A → Answer B T) → Answer B T
  passed (err e) s next = (err e, s)
  passed (ok a) s next = next a

  abbrev pub sent : Result Error (List ℕ) → Session T → Answer (List ℕ) T
  sent (err e) s = (err e, s)
  sent (ok bytes) s = (ok bytes, record s { sent_auth = true })

module _ {H T : Type 0} (noise : Snow H T) where
  unfoldable pub frame : ℕ → List ℕ → Session T → Result Error (List ℕ)
  frame n clear s = do
    state ← ok_or s.state closed
    sealed ← ok_or (noise.seal state n clear) authentication
    ok (1 ∷ (s.id ++ (be_bytes 8 n ++ sealed)))

  abbrev pub send_next : List ℕ → Session T → Answer (List ℕ) T
  send_next bytes s =
      if not (is_authenticated s)
      then (err wrong_phase, s)
      else if length bytes == 0 || ltb max_payload (length bytes)
      then (err invalid_input, s)
      else if leb max_packets s.next
      then (err exhausted, close s)
      else let s' = record s { next = s.next + 1 } in (frame s.next (1 ∷ bytes) s', s')

  unfoldable pub send : List ℕ → VerifiedRoster → ℕ → Session T → Answer (List ℕ) T
  send bytes roster now s = checked roster now s (send_next bytes)

module _ {H T Key : Type 0} (noise : Snow H T) (ed : Ed25519 Key) where
  unfoldable pub proof_frame : Key → VerifiedRoster → Session T → Result Error (List ℕ)
  proof_frame signer roster s = do
    key ← auth (signing_key_of s.local roster)
    reject (not (equal key (ed.verifying_key signer))) authentication
    signature ←
        auth (sign ed signer s.scope Domain.session (proof_body s.scope s.id s.local s.role))
    frame noise 0
        (0 ∷ finish (write_bytes signature (write_bytes s.local.id (write_array 2 default_writer))))
        s

  abbrev pub authentication_next : Key → VerifiedRoster → Session T → Answer (List ℕ) T
  authentication_next signer roster s =
      if s.sent_auth then (err wrong_phase, s) else sent (proof_frame signer roster s) s

  unfoldable pub authentication_frame : Key → VerifiedRoster → ℕ → Session T → Answer (List ℕ) T
  authentication_frame signer roster now s =
      checked roster now s (authentication_next signer roster)

  -- The member that the peer's first packet proves.
  unfoldable pub confirm : List ℕ → VerifiedRoster → Session T → Result Error MemberId
  confirm clear roster s = do
    reject (not (starts_with 0 clear)) authentication
    r ← auth (new_reader (drop 1 clear) 128)
    (_, r₁) ← auth (array 2 r)
    (id, r₂) ← auth (fixed 32 r₁)
    (signature, r₃) ← auth (fixed 64 r₂)
    _ ← auth (end r₃)
    let member : MemberId = record { id = id }
    reject (equal member s.local || unexpected s.expected member) authentication
    key ← auth (signing_key_of member roster)
    let body = proof_body s.scope s.id member (opposite s.role)
    _ ← auth (verify ed key s.scope Domain.session body signature)
    ok member

  unfoldable pub opened : ℕ → List ℕ → Session T → Result Error (List ℕ)
  opened n sealed s = do
    state ← ok_or s.state closed
    ok_or (noise.open_sealed state n sealed) authentication

  abbrev pub receive_opened : ℕ → VerifiedRoster → Session T → List ℕ → Answer Incoming T
  receive_opened n roster s clear =
      if n == 0 then confirmed_by (confirm clear roster s) s else receive_data n clear s

  abbrev pub receive_next : List ℕ → VerifiedRoster → Session T → Answer Incoming T
  receive_next frame roster s =
      let n = nonce_of frame in
      if malformed frame s
      then (err invalid_input, s)
      else if leb max_packets n
      then (err exhausted, s)
      else passed (check n s.replay) s (λ _.
        if not (n == 0) && not (is_authenticated s)
        then (err wrong_phase, s)
        else passed (opened n (drop 41 frame) s) s (receive_opened n roster s))

  unfoldable pub receive : List ℕ → VerifiedRoster → ℕ → Session T → Answer Incoming T
  receive frame roster now s = checked roster now s (receive_next frame roster)
