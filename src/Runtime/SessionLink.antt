-- ===== src/Runtime/SessionLink.antt =====
-- crates/mesh-runtime/src/link.rs: `SessionLink`, which carries the frames of a session over one link
-- of a native port. The port is a trait that native code implements.
pub mod Delivery
mod Tests
use mesh_lab.Prelude.{ℕ, List, [], ◌∷◌, Option, none, some, ◌==◌, if◌then◌else◌, Result, ok, err}
use mesh_lab.Link.{Frame, LinkId, PortEvent, new_frame}
use mesh_lab.Link
use mesh_lab.Crypto.{Ed25519}
use mesh_lab.Protocol.Roster.{VerifiedRoster}
use mesh_lab.Session.Noise.{Snow}
use mesh_lab.Session.{Session, Incoming, send, receive}
use mesh_lab.Session

pub record TransportPort (P : Type 0) : Type 0 where
  pub port_send : LinkId → Frame → P → Result Link.Error (Unit {0}) × P
  pub port_poll : P → Result Link.Error (List PortEvent) × P

pub record SessionLink (P : Type 0) : Type 0 where
  pub port : P
  pub link : LinkId

pub data LinkError : Type 0 where
  port_error : Link.Error → LinkError
  session_error : Session.Packets.Error → LinkError

-- What a call answers, with the link and the session that it leaves.
abbrev pub Carried : Type 0 → Type 0 → Type 0 → Type 0
Carried A P T = Result LinkError A × SessionLink P × Session T

module _ {P T : Type 0} (port : TransportPort P) where
  abbrev pub sent_by :
      Result Link.Error (Unit {0}) × P → SessionLink P → Session T → Carried (Unit {0}) P T
  sent_by (ok _, p) l s = (ok tt, record l { port = p }, s)
  sent_by (err e, p) l s = (err (port_error e), record l { port = p }, s)

  abbrev pub carry : Result Link.Error Frame → SessionLink P → Session T → Carried (Unit {0}) P T
  carry (err e) l s = (err (port_error e), l, s)
  carry (ok f) l s = sent_by (port.port_send l.link f l.port) l s

module _ {H P T : Type 0} (noise : Snow H T) (port : TransportPort P) where
  abbrev pub framed_by :
      Result Session.Packets.Error (List ℕ) × Session T → SessionLink P → Carried (Unit {0}) P T
  framed_by (err e, s) l = (err (session_error e), l, s)
  framed_by (ok bytes, s) l = carry port (new_frame bytes) l s

  unfoldable pub link_send :
      List ℕ → VerifiedRoster → ℕ → SessionLink P → Session T → Carried (Unit {0}) P T
  link_send bytes roster now l s = framed_by (send noise bytes roster now s) l

-- What an event gives the host: nothing, or what a frame of this link held.
abbrev pub Heard : Type 0 → Type 0
Heard T = Result LinkError (Option Incoming) × Session T

module _ {T : Type 0} where
  abbrev pub heard : Result Session.Packets.Error Incoming × Session T → Heard T
  heard (err e, s) = (err (session_error e), s)
  heard (ok i, s) = (ok (some i), s)

  abbrev pub push :
      Incoming
      → Result LinkError (List Incoming) × Session T
      → Result LinkError (List Incoming) × Session T
  push i (err e, s) = (err e, s)
  push i (ok is, s) = (ok (i ∷ is), s)

  -- The loop goes on behind an event, or stops at its error.
  abbrev pub onward :
      Heard T
      → (Session T → Result LinkError (List Incoming) × Session T)
      → Result LinkError (List Incoming) × Session T
  onward (err e, s) rest = (err e, s)
  onward (ok none, s) rest = rest s
  onward (ok (some i), s) rest = push i (rest s)

module _ {H T Key : Type 0} (noise : Snow H T) (ed : Ed25519 Key) where
  unfoldable pub on_event : LinkId → VerifiedRoster → ℕ → PortEvent → Session T → Heard T
  on_event own roster now (PortEvent.link_up l) s = (ok none, s)
  on_event own roster now (PortEvent.frame l f) s =
      if l.id == own.id then heard (receive noise ed f.bytes roster now s) else (ok none, s)
  on_event own roster now (PortEvent.link_down l) s = (ok none, s)

  unfoldable pub collect :
      LinkId
      → VerifiedRoster
      → ℕ
      → List PortEvent
      → Session T
      → Result LinkError (List Incoming) × Session T
  collect own roster now [] s = (ok [], s)
  collect own roster now (e ∷ es) s =
      onward (on_event own roster now e s) (collect own roster now es)

module _ {H P T Key : Type 0} (noise : Snow H T) (ed : Ed25519 Key) (port : TransportPort P) where
  abbrev pub polled_by :
      Result Link.Error (List PortEvent) × P
      → VerifiedRoster
      → ℕ
      → SessionLink P
      → Session T
      → Carried (List Incoming) P T
  polled_by (err e, p) roster now l s = (err (port_error e), record l { port = p }, s)
  polled_by (ok events, p) roster now l s =
      let (r, s') = collect noise ed l.link roster now events s in (r, record l { port = p }, s')

  unfoldable pub link_poll :
      VerifiedRoster → ℕ → SessionLink P → Session T → Carried (List Incoming) P T
  link_poll roster now l s = polled_by (port.port_poll l.port) roster now l s
