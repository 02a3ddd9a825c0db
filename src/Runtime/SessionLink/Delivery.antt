-- ===== src/Runtime/SessionLink/Delivery.antt =====
-- A datagram from one end of a session to the other, over a link of each port.
use mesh_lab.Prelude.{
  ℕ, ◌+◌, ◌≤◌, ◌≡◌, refl, ap, ◌∙◌, ◌==◌, if◌then◌else◌, Bool-cases, inl, inr, List, [], ◌∷◌, ◌++◌,
  length, ok, arith,
}
use mesh_lab.Link.{Frame, LinkId, PortEvent, new_frame}
use mesh_lab.Crypto.{Ed25519}
use mesh_lab.Protocol.Roster.{VerifiedRoster}
use mesh_lab.Session.Noise.{Snow, max_payload, max_frame}
use mesh_lab.Session.Packets.{accept}
use mesh_lab.Session.{Session, Incoming, payload, receive}
use mesh_lab.Session.Delivery.{Ends, Ready, delivered}
use mesh_lab.Runtime.SessionLink.{
  TransportPort, SessionLink, on_event, collect, link_send, link_poll,
}

-- The frames of a link among the events.
abbrev pub frames_of : LinkId → List PortEvent → List Frame
frames_of own [] = []
frames_of own (PortEvent.link_up l ∷ es) = frames_of own es
frames_of own (PortEvent.frame l f ∷ es) =
    let rest = frames_of own es in if l.id == own.id then f ∷ rest else rest
frames_of own (PortEvent.link_down l ∷ es) = frames_of own es

-- Two adapters of one radio. `sent` is what a port was given for the near link, in order; `transfer`
-- is the radio, by which frames come to wait at the other port behind those that wait there; and a
-- poll brings what waits on the far link, among whatever other events.
pub record Radio {P : Type 0} (port : TransportPort P) (near far : LinkId) : Type 0 where
  pub sent : P → List Frame
  pub waiting : P → List Frame
  pub transfer : List Frame → P → P
  pub sends :
      (f : Frame) (p : P)
      → (p' : P) × (port.port_send near f p ≡ (ok tt, p')) × (sent p' ≡ sent p ++ f ∷ [])
  pub brings : (fs : List Frame) (q : P) → waiting (transfer fs q) ≡ waiting q ++ fs
  pub polls :
      (q : P)
      → (es : List PortEvent) × (q' : P) × (port.port_poll q ≡ (ok es, q'))
        × (frames_of far es ≡ waiting q)

module _ {H T Key : Type 0} (noise : Snow H T) (ed : Ed25519 Key) (own : LinkId)
    (roster : VerifiedRoster) (now : ℕ) where
  collect_none :
      (es : List PortEvent) (s : Session T)
      → frames_of own es ≡ []
      → collect noise ed own roster now es s ≡ (ok [], s)
  unfolding collect on_event
  collect_none [] s h = refl
  collect_none (PortEvent.link_up l ∷ es) s h = collect_none es s h
  collect_none (PortEvent.frame l f ∷ es) s h = elim (Bool-cases (l.id == own.id)) [
    | inl here ↦ absurd (ground (arith, h, here))
    | inr away ↦ rw away (collect_none es s (rw away at h))
  ]
  collect_none (PortEvent.link_down l ∷ es) s h = collect_none es s h

  -- What one frame of the link holds is all that the host is given.
  collect_one :
      (es : List PortEvent) (f : Frame) (s s' : Session T) (i : Incoming)
      → frames_of own es ≡ f ∷ []
      → receive noise ed f.bytes roster now s ≡ (ok i, s')
      → collect noise ed own roster now es s ≡ (ok (i ∷ []), s')
  unfolding collect on_event
  collect_one [] f s s' i h got = cc
  collect_one (PortEvent.link_up l ∷ es) f s s' i h got = collect_one es f s s' i h got
  collect_one (PortEvent.frame l g ∷ es) f s s' i h got = elim (Bool-cases (l.id == own.id)) [
    | inl here ↦
        let both = rw here at h in
        let same : g ≡ f = ground (arith, both) in
        let rest : frames_of own es ≡ [] = ground (arith, both) in
        rw (here, same, got, collect_none es s' rest) refl
    | inr away ↦ rw away (collect_one es f s s' i (rw away at h) got)
  ]
  collect_one (PortEvent.link_down l ∷ es) f s s' i h got = collect_one es f s s' i h got

frame_fits :
    (bytes : List ℕ)
    → 1 ≤ length bytes
    → length bytes ≤ max_frame
    → new_frame bytes ≡ ok (record { bytes = bytes })
unfolding new_frame
frame_fits bytes some_bytes few = ground arith

module _ {H P T Key : Type 0} (noise : Snow H T) (ed : Ed25519 Key) (port : TransportPort P) where
  -- Between the two ends of an authenticated session, over two ports of one radio where nothing else
  -- is under way on the link: one side sends bytes over its link, the radio brings what that side's
  -- port was given to the other port, and then the other side polls from its own link exactly those
  -- bytes and nothing else, whatever other events the poll brings. No frame of a session is too large
  -- for a link.
  pub carried :
      (la lb : SessionLink P) (a b : Session T) (bytes : List ℕ) (roster roster' : VerifiedRoster)
      (now now' : ℕ) (radio : Radio port la.link lb.link)
      → radio.sent la.port ≡ []
      → radio.waiting lb.port ≡ []
      → Ends noise a b
      → Ready roster now a
      → Ready roster' now' b
      → 1 ≤ length bytes
      → length bytes ≤ max_payload
      → (p q : P) × (link_send noise port bytes roster now la a
          ≡ (ok tt, record la { port = p }, record a { next = a.next + 1 }))
        × (link_poll noise ed port roster' now'
              (record lb { port = radio.transfer (radio.sent p) lb.port })
              b
            ≡ (
              ok (payload bytes ∷ []),
              record lb { port = q },
              record b { replay = accept a.next b.replay },
            ))
  unfolding link_send link_poll
  carried la lb a b bytes roster roster' now now' radio idle still e ra rb some_bytes few =
      let (f, sending, filled, small, receiving) =
        delivered noise ed a b bytes roster roster' now now' e ra rb some_bytes few in
      let frame : Frame = record { bytes = f } in
      let (p, given, taken) = radio.sends frame la.port in
      let held : radio.sent p ≡ frame ∷ [] = taken ∙ ap (λ fs. fs ++ frame ∷ []) idle in
      let come = radio.transfer (radio.sent p) lb.port in
      let (es, q, polled, frames) = radio.polls come in
      let there : frames_of lb.link es ≡ frame ∷ [] =
        frames ∙ radio.brings (radio.sent p) lb.port ∙ ap (λ fs. fs ++ radio.sent p) still ∙ held in
      (
        p,
        q,
        rw (sending, frame_fits f filled small, given),
        rw (polled, collect_one noise ed lb.link roster' now' es frame b _ _ there receiving),
      )
