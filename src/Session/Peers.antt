-- ===== src/Session/Peers.antt =====
-- Whom a session hands data from: a certified member who signed the session.
use mesh_lab.Prelude.{
  ℕ, ◌≡◌, refl, subst, ap, true, not, List, Option, none, some, length, ok, ◌==◌, ok_or, >>=-eq-ok,
  reject_then, reject_inv, arith, ok-subst, [], Option-cases, inl, inr,
}
use mesh_lab.Prelude.Ord.{equal, bytes_ord}
use mesh_lab.Durable.{MemberId}
use mesh_lab.Crypto.{Ed25519, Scope}
use mesh_lab.Protocol.Roster.{VerifiedRoster, validate_at}
use mesh_lab.Session.Noise.{Snow, Role}
use mesh_lab.Session.Packets.{closed, expired, authentication, wrong_phase}
use mesh_lab.Session.Packets.Window.{opens}
use mesh_lab.Session.{Session, payload, auth, is_authenticated}
use mesh_lab.Session.Handshake.{Handshake, finish, late}
use mesh_lab.Session.Moves.{
  Call, Output, arrived, call, Vouched, Moves, stays, shuts, ends, spends, proves, emits, confirms,
  hears, call-Moves,
}
use mesh_lab.Session.Once.{IsValid, run, run_inv}

-- The parts of a session that no call changes.
abbrev fixed :
    {T : Type 0} → Session T → List ℕ × Scope × List ℕ × Role × MemberId × Option MemberId
fixed s = (s.id, s.scope, s.roster, s.role, s.local, s.expected)

abbrev OnPayload : Type 0 → Output → Type 0
OnPayload P (arrived n (payload b)) = P
OnPayload P _ = Unit

module _ {T Key : Type 0} (ed : Ed25519 Key) where
  Vouched-carry :
      (s s' : Session T) (m : MemberId) → fixed s' ≡ fixed s → Vouched ed s m → Vouched ed s' m
  Vouched-carry s s' m g v =
      let id = ap (λ t. t.0) g in
      let scope = ap (λ t. t.1) g in
      let pinned = ap (λ t. t.2) g in
      let role = ap (λ t. t.3) g in
      let local = ap (λ t. t.4) g in
      let expected = ap (λ t. t.5) g in
      record {
        roster = v.roster;
        key = v.key;
        signature = v.signature;
        pinned = rw pinned v.pinned;
        certified = v.certified;
        signed = rw (scope, id, role) v.signed;
        remote = rw local v.remote;
        awaited = rw expected v.awaited;
      }

  -- The peer is vouched for, if there is one.
  pub PeerVouched : Session T → Type 0
  PeerVouched s = (m : MemberId) → s.peer ≡ some m → Vouched ed s m

  Moves-PeerVouched :
      {s s' : Session T} {o : Output} → Moves ed s o s' → PeerVouched s → PeerVouched s'
  unfolding PeerVouched
  Moves-PeerVouched (stays e) v = v
  Moves-PeerVouched (shuts e) v = λ m h. cc
  Moves-PeerVouched ends v = λ m h. cc
  Moves-PeerVouched {s} {s'} (spends e room) v = λ m h. Vouched-carry s s' m refl (v m h)
  Moves-PeerVouched {s} {s'} (proves sealed first) v = λ m h. Vouched-carry s s' m refl (v m h)
  Moves-PeerVouched {s} {s'} (emits sealed known room) v = λ m h. Vouched-carry s s' m refl (v m h)
  Moves-PeerVouched {s} {s'} (confirms n k first fresh vouched) v =
      λ m h. subst (Vouched ed s') (ground (arith, h)) (Vouched-carry s s' k refl vouched)
  Moves-PeerVouched {s} {s'} (hears n b known fresh) v = λ m h. Vouched-carry s s' m refl (v m h)

  Moves-payload :
      {s s' : Session T} {o : Output} → Moves ed s o s' → OnPayload (is_authenticated s ≡ true) o
  Moves-payload (stays e) = tt
  Moves-payload (shuts e) = tt
  Moves-payload ends = tt
  Moves-payload (spends e room) = tt
  Moves-payload (proves sealed first) = tt
  Moves-payload (emits sealed known room) = tt
  Moves-payload (confirms n m first fresh vouched) = tt
  Moves-payload (hears n b known fresh) = known

module _ {H T : Type 0} (noise : Snow H T) where
  -- A session starts without a peer, with nothing sent and nothing received.
  finish_inv :
      (roster : VerifiedRoster) (now : ℕ) (h : Handshake H) (s : Session T)
      → finish noise roster now h ≡ ok s
      → (s.peer ≡ none) × IsValid s
  unfolding finish
  finish_inv roster now h s e =
      let (state, _, e₁) = >>=-eq-ok (ok_or h.state closed) _ e in
      let e₂ = reject_then (late noise now h) expired _ e₁ in
      let (_, _, e₃) = >>=-eq-ok (auth (validate_at now roster)) _ e₂ in
      let e₄ = reject_then (not (equal roster.digest h.roster)) authentication _ e₃ in
      let e₅ = reject_then (not (noise.is_handshake_finished state)) wrong_phase _ e₄ in
      let id = noise.handshake_hash state in
      let sized = reject_inv (not (length id == 32)) authentication _ e₅ in
      let e₆ = reject_then (not (length id == 32)) authentication _ e₅ in
      let (transport, _, last) =
        >>=-eq-ok (ok_or (noise.into_transport state) authentication) _ e₆ in
      ok-subst (λ t. (t.peer ≡ none) × IsValid t) _ s last
        (
          refl,
          record {
            sized = ground (arith, sized);
            positive = omega arith;
            bounded = omega arith;
            received = [];
            window = opens;
          },
        )

module _ {H T Key : Type 0} (noise : Snow H T) (ed : Ed25519 Key) where
  -- After a handshake and whatever calls, data arrives only while the session has a peer, and this
  -- peer is a member whom the pinned roster certifies, who signed this very session in the opposite
  -- role, is not the local member, and is the expected one if one was expected.
  pub payload-Vouched :
      (roster : VerifiedRoster) (now : ℕ) (h : Handshake H) (s s' : Session T)
      (cs : List (Call Key)) (c : Call Key) (n : ℕ) (b : List ℕ)
      → finish noise roster now h ≡ ok s
      → call noise ed c (run noise ed cs s) ≡ (arrived n (payload b), s')
      → (m : MemberId) × ((run noise ed cs s).peer ≡ some m) × Vouched ed (run noise ed cs s) m
  unfolding PeerVouched
  payload-Vouched roster now h s s' cs c n b start heard =
      let t = run noise ed cs s in
      let (alone, _) = finish_inv noise roster now h s start in
      let sound : PeerVouched ed t =
        run_inv noise ed (PeerVouched ed)
          (λ u d v. Moves-PeerVouched ed (call-Moves noise ed d u) v) cs s
          (λ m e. absurd (ground (arith, alone, e))) in
      let known : is_authenticated t ≡ true =
        Moves-payload ed (subst (λ p. Moves ed t p.0 p.1) heard (call-Moves noise ed c t)) in
      elim (Option-cases t.peer) [
        | inl nobody ↦ absurd (ground (arith, known, nobody))
        | inr (m, e) ↦ (m, e, sound m e)
      ]
