-- ===== src/Session/Moves.antt =====
-- The calls of the host as one type, and the ways in which a call changes a session.
use mesh_lab.Prelude.{
  ℕ, ◌+◌, ◌<◌, ◌≡◌, refl, Bool, true, false, not, ◌&&◌, ◌||◌, List, ◌∷◌, ◌++◌, some, ltb, leb,
  length, ◌==◌, if◌then◌else◌, Result, ok, err, drop, arith, inl, inr, Bool-cases, ok_or, >>=-eq-ok,
  reject_then, reject_inv, ==_iff, subst,
}
use mesh_lab.Prelude.Ord.{equal, bytes_ord}
use mesh_lab.Durable.{MemberId, member_ord}
use mesh_lab.Codec.{new_reader, array, fixed, end}
use mesh_lab.Codec.Words.{be_bytes}
use mesh_lab.Crypto.{Ed25519, Domain, verify, sign}
use mesh_lab.Protocol.Roster.{VerifiedRoster, signing_key_of, validate_at}
use mesh_lab.Session.Noise.{Snow, opposite, proof_body, max_packets, max_payload}
use mesh_lab.Session.Packets.{
  Error, authentication, wrong_phase, invalid_input, closed, expired, exhausted, check, accept,
}
use mesh_lab.Session.{
  Session, Incoming, authenticated, payload, Answer, auth, is_authenticated, is_some, is_err, close,
  unexpected, nonce_of, frame, send, send_next, checked, sent, passed, malformed, confirmed_by,
  confirm, opened, proof_frame, authentication_frame, authentication_next, receive_next, receive,
  starts_with,
}

pub data Call (Key : Type 0) : Type 0 where
  authenticates : Key → VerifiedRoster → ℕ → Call Key
  sends : List ℕ → VerifiedRoster → ℕ → Call Key
  receives : List ℕ → VerifiedRoster → ℕ → Call Key
  closes : Call Key

-- What the host sees of a call: a frame, or what arrived under which packet number.
pub data Output : Type 0 where
  refused : Error → Output
  emitted : List ℕ → Output
  arrived : ℕ → Incoming → Output
  done : Output

module _ {T : Type 0} where
  abbrev pub settle : {A : Type 0} → (A → Output) → Answer A T → Output × Session T
  settle see (ok a, s) = (see a, s)
  settle see (err e, s) = (refused e, s)

  -- The bytes of a frame of the session.
  abbrev pub framed : Session T → ℕ → List ℕ → List ℕ
  framed s n sealed = 1 ∷ (s.id ++ (be_bytes 8 n ++ sealed))

module _ {H T Key : Type 0} (noise : Snow H T) (ed : Ed25519 Key) where
  unfoldable pub call : Call Key → Session T → Output × Session T
  call (authenticates key roster now) s =
      settle emitted (authentication_frame noise ed key roster now s)
  call (sends bytes roster now) s = settle emitted (send noise bytes roster now s)
  call (receives bytes roster now) s =
      settle (arrived (nonce_of bytes)) (receive noise ed bytes roster now s)
  call closes s = (done, close s)

module _ {T Key : Type 0} (ed : Ed25519 Key) where
  -- The certified member `m` signed this session, as the one that the local side expects and in the
  -- opposite role.
  pub record Vouched (s : Session T) (m : MemberId) : Type 0 where
    pub roster : VerifiedRoster
    pub key : List ℕ
    pub signature : List ℕ
    pub pinned : equal roster.digest s.roster ≡ true
    pub certified : signing_key_of m roster ≡ ok key
    pub signed :
        verify ed key s.scope Domain.session (proof_body s.scope s.id m (opposite s.role)) signature
        ≡ ok tt
    pub remote : equal m s.local ≡ false
    pub awaited : unexpected s.expected m ≡ false

  pub data Moves (s : Session T) : Output → Session T → Type 0 where
    stays : (e : Error) → Moves s (refused e) s
    shuts : (e : Error) → Moves s (refused e) (close s)
    ends : Moves s done (close s)
    spends :
        (e : Error) → s.next < max_packets → Moves s (refused e) (record s { next = s.next + 1 })
    proves :
        (sealed : List ℕ)
        → s.sent_auth ≡ false
        → Moves s (emitted (framed s 0 sealed)) (record s { sent_auth = true })
    emits :
        (sealed : List ℕ)
        → is_authenticated s ≡ true
        → s.next < max_packets
        → Moves s (emitted (framed s s.next sealed)) (record s { next = s.next + 1 })
    confirms :
        (n : ℕ) (m : MemberId)
        → n ≡ 0
        → check n s.replay ≡ ok tt
        → Vouched s m
        → Moves s
            (arrived n (authenticated m))
            (record s { peer = some m; replay = accept n s.replay })
    hears :
        (n : ℕ) (b : List ℕ)
        → is_authenticated s ≡ true
        → check n s.replay ≡ ok tt
        → Moves s (arrived n (payload b)) (record s { replay = accept n s.replay })

frame_inv :
    {H T : Type 0} (noise : Snow H T) (n : ℕ) (clear bytes : List ℕ) (s : Session T)
    → frame noise n clear s ≡ ok bytes
    → (sealed : List ℕ) × (bytes ≡ framed s n sealed)
unfolding frame
frame_inv noise n clear bytes s h =
    let (state, _, more) = >>=-eq-ok (ok_or s.state closed) _ h in
    let (sealed, _, last) = >>=-eq-ok (ok_or (noise.seal state n clear) authentication) _ more in
    (sealed, ground (arith, last))

auth_inv {ℓ} : {E : Type 0} {A : Type ℓ} (r : Result E A) (a : A) → auth r ≡ ok a → r ≡ ok a
auth_inv (ok b) a h = ground (arith, h)
auth_inv (err e) a h = cc

module _ {T Key : Type 0} (ed : Ed25519 Key) (s : Session T) where
  abbrev MovesTo : Output × Session T → Type 0
  MovesTo p = Moves ed s p.0 p.1

module _ {A T Key : Type 0} (ed : Ed25519 Key) (s : Session T) (see : A → Output) where
  branch-Moves :
      (b : Bool) (x y : Answer A T)
      → MovesTo ed s (settle see x)
      → (b ≡ false → MovesTo ed s (settle see y))
      → MovesTo ed s (settle see (if b then x else y))
  branch-Moves true x y hx hy = hx
  branch-Moves false x y hx hy = hy refl

  checked-Moves :
      (roster : VerifiedRoster) (now : ℕ) (next : Session T → Answer A T)
      → (equal roster.digest s.roster ≡ true → MovesTo ed s (settle see (next s)))
      → MovesTo ed s (settle see (checked roster now s next))
  checked-Moves roster now next h =
      branch-Moves (not (is_some s.state)) _ _ (stays closed) (λ alive.
        branch-Moves (ltb now s.started || (not (is_authenticated s) && leb s.deadline now)) _ _
          (shuts expired)
          (λ timely.
            branch-Moves (not (equal roster.digest s.roster) || is_err (validate_at now roster)) _ _
              (shuts authentication) (λ valid. h (ground (arith, valid)))))

  passed-Moves :
      (B : Type 0) (r : Result Error B) (next : B → Answer A T)
      → ((b : B) → r ≡ ok b → MovesTo ed s (settle see (next b)))
      → MovesTo ed s (settle see (passed r s next))
  passed-Moves B (err e) next h = stays e
  passed-Moves B (ok b) next h = h b refl

module _ {H T Key : Type 0} (noise : Snow H T) (ed : Ed25519 Key) (s : Session T) where
  sent-Moves :
      (r : Result Error (List ℕ))
      → s.sent_auth ≡ false
      → ((bytes : List ℕ) → r ≡ ok bytes → (sealed : List ℕ) × (bytes ≡ framed s 0 sealed))
      → MovesTo ed s (settle emitted (sent r s))
  sent-Moves (err e) first shape = stays e
  sent-Moves (ok bytes) first shape =
      let (sealed, e) = shape bytes refl in rw e (proves sealed first)

  proof_frame_inv :
      (key : Key) (roster : VerifiedRoster) (bytes : List ℕ)
      → proof_frame noise ed key roster s ≡ ok bytes
      → (sealed : List ℕ) × (bytes ≡ framed s 0 sealed)
  unfolding proof_frame
  proof_frame_inv key roster bytes h =
      let (known, _, more) = >>=-eq-ok (auth (signing_key_of s.local roster)) _ h in
      let own = reject_then (not (equal known (ed.verifying_key key))) authentication _ more in
      let (signature, _, last) =
        >>=-eq-ok
          (auth (sign ed key s.scope Domain.session (proof_body s.scope s.id s.local s.role))) _
          own in
      frame_inv noise 0 _ bytes s last

  authentication-Moves :
      (key : Key) (roster : VerifiedRoster)
      → MovesTo ed s (settle emitted (authentication_next noise ed key roster s))
  authentication-Moves key roster =
      branch-Moves ed s emitted s.sent_auth (err wrong_phase, s)
        (sent (proof_frame noise ed key roster s) s) (stays wrong_phase)
        (λ first.
          sent-Moves (proof_frame noise ed key roster s) first
            (λ b h. proof_frame_inv key roster b h))

  sealed-Moves :
      (r : Result Error (List ℕ))
      → is_authenticated s ≡ true
      → s.next < max_packets
      → ((bytes : List ℕ) → r ≡ ok bytes → (sealed : List ℕ) × (bytes ≡ framed s s.next sealed))
      → MovesTo ed s (settle emitted (r, record s { next = s.next + 1 }))
  sealed-Moves (err e) known room shape = spends e room
  sealed-Moves (ok bytes) known room shape =
      let (sealed, e) = shape bytes refl in rw e (emits sealed known room)

  send-Moves : (bytes : List ℕ) → MovesTo ed s (settle emitted (send_next noise bytes s))
  send-Moves bytes =
      branch-Moves ed s emitted (not (is_authenticated s)) _ _ (stays wrong_phase) (λ known.
        branch-Moves ed s emitted (length bytes == 0 || ltb max_payload (length bytes)) _ _
          (stays invalid_input)
          (λ sized.
            branch-Moves ed s emitted (leb max_packets s.next) _ _ (shuts exhausted) (λ room.
              sealed-Moves (frame noise s.next (1 ∷ bytes) (record s { next = s.next + 1 }))
                (ground (arith, known)) (ground (arith, room))
                (λ b h. frame_inv noise s.next (1 ∷ bytes) b (record s { next = s.next + 1 }) h))))

  confirm-Vouched :
      (clear : List ℕ) (roster : VerifiedRoster) (m : MemberId)
      → equal roster.digest s.roster ≡ true
      → confirm noise ed clear roster s ≡ ok m
      → Vouched ed s m
  unfolding confirm
  confirm-Vouched clear roster m pinned h =
      let h₀ = reject_then (not (starts_with 0 clear)) authentication _ h in
      let (r, _, h₁) = >>=-eq-ok (auth (new_reader (drop 1 clear) 128)) _ h₀ in
      let ((_, r₁), _, h₂) = >>=-eq-ok (auth (array 2 r)) _ h₁ in
      let ((id, r₂), _, h₃) = >>=-eq-ok (auth (fixed 32 r₁)) _ h₂ in
      let ((signature, r₃), _, h₄) = >>=-eq-ok (auth (fixed 64 r₂)) _ h₃ in
      let (_, _, h₅) = >>=-eq-ok (auth (end r₃)) _ h₄ in
      let who : MemberId = record { id = id } in
      let apart = reject_inv (equal who s.local || unexpected s.expected who) authentication _ h₅ in
      let h₆ = reject_then (equal who s.local || unexpected s.expected who) authentication _ h₅ in
      let (key, certified, h₇) = >>=-eq-ok (auth (signing_key_of who roster)) _ h₆ in
      let (_, signed, last) =
        >>=-eq-ok
          (auth (
            verify ed key s.scope Domain.session (proof_body s.scope s.id who (opposite s.role))
              signature))
          _ h₇ in
      let same : who ≡ m = ground (arith, last) in
      subst (Vouched ed s) same (record {
        roster = roster;
        key = key;
        signature = signature;
        pinned = pinned;
        certified = auth_inv _ key certified;
        signed = auth_inv _ tt signed;
        remote = ground (arith, apart);
        awaited = ground (arith, apart);
      })

  confirmed-Moves :
      (n : ℕ) (r : Result Error MemberId)
      → n ≡ 0
      → check n s.replay ≡ ok tt
      → ((m : MemberId) → r ≡ ok m → Vouched ed s m)
      → MovesTo ed s (settle (arrived n) (confirmed_by r s))
  confirmed-Moves n (err e) first fresh vouched = shuts e
  confirmed-Moves n (ok m) first fresh vouched =
      subst
        (λ k.
          MovesTo ed s
            (arrived n (authenticated m), record s { peer = some m; replay = accept k s.replay }))
        first (confirms n m first fresh (vouched m refl))

  receive-Moves :
      (bytes : List ℕ) (roster : VerifiedRoster)
      → equal roster.digest s.roster ≡ true
      → MovesTo ed s (settle (arrived (nonce_of bytes)) (receive_next noise ed bytes roster s))
  receive-Moves bytes roster pinned =
      let n = nonce_of bytes in
      let see = arrived n in
      branch-Moves ed s see (malformed bytes s) _ _ (stays invalid_input) (λ formed.
        branch-Moves ed s see (leb max_packets n) _ _ (stays exhausted) (λ few.
          passed-Moves ed s see _ (check n s.replay) _ (λ _ fresh.
            branch-Moves ed s see (not (n == 0) && not (is_authenticated s)) _ _ (stays wrong_phase)
              (λ phase. passed-Moves ed s see _ (opened noise ed n (drop 41 bytes) s) _ (λ clear _.
                elim (Bool-cases (n == 0)) [
                  | inl first ↦ rw first (
                      confirmed-Moves n (confirm noise ed clear roster s) ((==_iff n 0).0 first)
                        fresh (λ m e. confirm-Vouched clear roster m pinned e))
                  | inr later ↦ rw later (
                      branch-Moves ed s see
                        (not (starts_with 1 clear)
                          || ltb (length clear) 2
                          || ltb (max_payload + 1) (length clear))
                        _ _ (shuts invalid_input)
                        (λ shaped. hears n (drop 1 clear) (ground (arith, phase, later)) fresh))
                ])))))

module _ {H T Key : Type 0} (noise : Snow H T) (ed : Ed25519 Key) where
  -- Every call moves the session in one of these ways.
  pub call-Moves :
      (c : Call Key) (s : Session T) → Moves ed s (call noise ed c s).0 (call noise ed c s).1
  unfolding call authentication_frame send receive
  call-Moves (authenticates key roster now) s =
      checked-Moves ed s emitted roster now (authentication_next noise ed key roster)
        (λ pinned. authentication-Moves noise ed s key roster)
  call-Moves (sends bytes roster now) s =
      checked-Moves ed s emitted roster now (send_next noise bytes)
        (λ pinned. send-Moves noise ed s bytes)
  call-Moves (receives bytes roster now) s =
      checked-Moves ed s (arrived (nonce_of bytes)) roster now (receive_next noise ed bytes roster)
        (λ pinned. receive-Moves noise ed s bytes roster pinned)
  call-Moves closes s = ends
