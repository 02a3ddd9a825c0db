-- ===== src/Session/Delivery.antt =====
-- What one side of a session sends, the other side is handed.
use mesh_lab.Prelude.{
  ℕ, ◌+◌, ◌≤◌, ◌<◌, ◌≡◌, refl, ◌∙◌, true, false, List, ◌∷◌, ◌++◌, some, length, take, drop,
  length-append, drop-append_of, take-append_of, ok, arith,
}
use mesh_lab.Prelude.Ord.{equal, bytes_ord, equal_iff}
use mesh_lab.Codec.Words.{be_bytes, length-be_bytes}
use mesh_lab.Crypto.{Ed25519}
use mesh_lab.Protocol.Roster.{VerifiedRoster, validate_at}
use mesh_lab.Session.Noise.{Snow, max_packets, max_payload, max_frame}
use mesh_lab.Session.Packets.{check, accept}
use mesh_lab.Session.{
  Session, Answer, payload, is_authenticated, frame, checked, malformed, send, send_next, receive,
  receive_next, opened,
}
use mesh_lab.Session.Moves.{framed}
use mesh_lab.Session.Once.{nonce_of-framed}

-- The transports of the two sides: what `x` seals, `y` opens, and the tag takes 16 bytes.
pub record Paired {H T : Type 0} (noise : Snow H T) (x y : T) : Type 0 where
  pub seals :
      (n : ℕ) (clear : List ℕ)
      → length clear ≤ max_payload + 1
      → (sealed : List ℕ) × (noise.seal x n clear ≡ some sealed)
        × (noise.open_sealed y n sealed ≡ some clear)
        × (length sealed ≡ length clear + 16)

-- The session passes its check at `now`, both sides being authenticated.
pub record Ready {T : Type 0} (roster : VerifiedRoster) (now : ℕ) (s : Session T) : Type 0 where
  pub known : is_authenticated s ≡ true
  pub begun : s.started ≤ now
  pub pinned : equal roster.digest s.roster ≡ true
  pub valid : validate_at now roster ≡ ok tt

module _ {T : Type 0} where
  pub checked-Ready :
      {A : Type 0} (roster : VerifiedRoster) (now : ℕ) (s : Session T)
      (next : Session T → Answer A T)
      → Ready roster now s
      → checked roster now s next ≡ next s
  checked-Ready roster now s next r = rw (r.pinned, r.valid) (ground (arith, r.known, r.begun))

  length-framed :
      (s : Session T) (n : ℕ) (sealed : List ℕ)
      → length s.id ≡ 32
      → length (framed s n sealed) ≡ 41 + length sealed
  length-framed s n sealed sized = omega (
    arith,
    length-append s.id (be_bytes 8 n ++ sealed),
    length-append (be_bytes 8 n) sealed,
    length-be_bytes 8 n,
    sized,
  )

  framed_formed :
      (s t : Session T) (n : ℕ) (sealed : List ℕ)
      → length s.id ≡ 32
      → t.id ≡ s.id
      → 17 ≤ length sealed
      → length sealed ≤ max_payload + 17
      → malformed (framed s n sealed) t ≡ false
  framed_formed s t n sealed sized same some_bytes few =
      let whole = length-framed s n sealed sized in
      let own : take 32 (s.id ++ (be_bytes 8 n ++ sealed)) ≡ s.id =
        take-append_of 32 s.id _ sized in
      rw (own, same, (equal_iff s.id s.id).1 refl) (ground (arith, whole))

  framed_body :
      (s : Session T) (n : ℕ) (sealed : List ℕ)
      → length s.id ≡ 32
      → drop 41 (framed s n sealed) ≡ sealed
  framed_body s n sealed sized =
      drop-append_of 33 8 (1 ∷ s.id) (be_bytes 8 n ++ sealed) (omega (arith, sized))
      ∙ drop-append_of 8 0 (be_bytes 8 n) sealed (length-be_bytes 8 n)

module _ {H T Key : Type 0} (noise : Snow H T) (ed : Ed25519 Key) where
  send_total :
      (bytes : List ℕ) (roster : VerifiedRoster) (now : ℕ) (a : Session T) (x : T) (sealed : List ℕ)
      → Ready roster now a
      → a.state ≡ some x
      → noise.seal x a.next (1 ∷ bytes) ≡ some sealed
      → 1 ≤ length bytes
      → length bytes ≤ max_payload
      → a.next < max_packets
      → send noise bytes roster now a
        ≡ (ok (framed a a.next sealed), record a { next = a.next + 1 })
  unfolding send frame
  send_total bytes roster now a x sealed r sx sealing some_bytes few room =
      checked-Ready roster now a (send_next noise bytes) r
      ∙ rw (r.known, sx, sealing) (ground arith)

  receive_total :
      (bytes : List ℕ) (roster : VerifiedRoster) (now : ℕ) (a b : Session T) (y : T)
      (sealed : List ℕ)
      → Ready roster now b
      → b.state ≡ some y
      → b.id ≡ a.id
      → length a.id ≡ 32
      → noise.open_sealed y a.next sealed ≡ some (1 ∷ bytes)
      → length sealed ≡ length bytes + 17
      → 1 ≤ length bytes
      → length bytes ≤ max_payload
      → 1 ≤ a.next
      → a.next < max_packets
      → check a.next b.replay ≡ ok tt
      → receive noise ed (framed a a.next sealed) roster now b
        ≡ (ok (payload bytes), record b { replay = accept a.next b.replay })
  unfolding receive opened
  receive_total bytes roster now a b y sealed r sy same sized opening long some_bytes few first room
        fresh =
      let n = nonce_of-framed a a.next sealed sized (omega arith) in
      let formed =
        framed_formed a b a.next sealed sized same (omega (arith, long)) (omega (arith, long)) in
      let body = framed_body a a.next sealed sized in
      checked-Ready roster now b (receive_next noise ed (framed a a.next sealed) roster) r
      ∙ rw (formed, n, fresh, r.known, sy, body, opening) (ground arith)

-- The two ends of one session, `a` about to send: both passed the check and know each other, their
-- transports are paired, and the number that `a` comes to is new to `b`.
pub record Ends {H T : Type 0} (noise : Snow H T) (a b : Session T) : Type 0 where
  pub near : T
  pub far : T
  pub near_state : a.state ≡ some near
  pub far_state : b.state ≡ some far
  pub paired : Paired noise near far
  pub same : b.id ≡ a.id
  pub sized : length a.id ≡ 32
  pub first : 1 ≤ a.next
  pub room : a.next < max_packets
  pub fresh : check a.next b.replay ≡ ok tt

module _ {H T Key : Type 0} (noise : Snow H T) (ed : Ed25519 Key) where
  -- Between the two ends of an authenticated session, every datagram of 1 to `MAX_PAYLOAD` bytes is
  -- sent as a frame of at most `MAX_FRAME` bytes, and this frame is received as exactly those bytes;
  -- the number is spent on one side and marked on the other, and nothing else changes.
  pub delivered :
      (a b : Session T) (bytes : List ℕ) (roster roster' : VerifiedRoster) (now now' : ℕ)
      → Ends noise a b
      → Ready roster now a
      → Ready roster' now' b
      → 1 ≤ length bytes
      → length bytes ≤ max_payload
      → (f : List ℕ) × (send noise bytes roster now a ≡ (ok f, record a { next = a.next + 1 }))
        × (1 ≤ length f)
        × (length f ≤ max_frame)
        × (receive noise ed f roster' now' b
            ≡ (ok (payload bytes), record b { replay = accept a.next b.replay }))
  delivered a b bytes roster roster' now now' e ra rb some_bytes few =
      let (sealed, sealing, opening, long) =
        e.paired.seals a.next (1 ∷ bytes) (omega (arith, few)) in
      let total : length sealed ≡ length bytes + 17 = omega (arith, long) in
      let whole = length-framed a a.next sealed e.sized in
      (
        framed a a.next sealed,
        send_total noise ed bytes roster now a e.near sealed ra e.near_state sealing some_bytes few
            e.room,
        omega (arith, whole),
        omega (arith, whole, total, few),
        receive_total noise ed bytes roster' now' a b e.far sealed rb e.far_state e.same e.sized
            opening total some_bytes few e.first e.room e.fresh,
      )
