-- ===== src/Runtime/SessionLink/Tests.antt =====
-- Two phones whose ports are queues, as in the unit tests of crates/mesh-runtime/src/link.rs.
use mesh_lab.Prelude.{◌≡◌, refl, ap, List, [], ◌∷◌, ◌++◌, ok, arith}
use mesh_lab.Link.{Frame, LinkId, PortEvent}
use mesh_lab.Session.{payload}
use mesh_lab.Session.Packets.{accept, default_replay}
use mesh_lab.Session.Tests.{
  plain, trusting, roster, ready_session, bob_session, both-Ends, alice-Ready, bob-Ready,
}
use mesh_lab.Runtime.SessionLink.{TransportPort, SessionLink, link_send, link_poll}
use mesh_lab.Runtime.SessionLink.Delivery.{Radio, frames_of, carried}

-- What was sent and not yet taken, and the events that wait for a poll.
pub record QueuePort : Type 0 where
  pub sent : List Frame
  pub events : List PortEvent

abbrev queue : TransportPort QueuePort
queue = record {
  port_send = λ l f p. (ok tt, record p { sent = p.sent ++ f ∷ [] });
  port_poll = λ p. (ok p.events, record p { events = [] });
}

abbrev far_id : LinkId
far_id = record { id = 9 }

abbrev arriving : List Frame → List PortEvent
arriving [] = []
arriving (f ∷ fs) = PortEvent.frame far_id f ∷ arriving fs

frames_of-arriving :
    (es : List PortEvent) (fs : List Frame)
    → frames_of far_id (es ++ arriving fs) ≡ frames_of far_id es ++ fs
frames_of-arriving [] [] = refl
frames_of-arriving [] (f ∷ fs) = ap (◌∷◌ f) (frames_of-arriving [] fs)
frames_of-arriving (PortEvent.link_up l ∷ es) fs = frames_of-arriving es fs
frames_of-arriving (PortEvent.frame l f ∷ es) fs = ground (arith, frames_of-arriving es fs)
frames_of-arriving (PortEvent.link_down l ∷ es) fs = frames_of-arriving es fs

abbrev near_link : SessionLink QueuePort
near_link = record {
  port = record { sent = []; events = PortEvent.link_down (record { id = 2 }) ∷ [] };
  link = record { id = 3 };
}

-- Another phone's link comes up, and a frame of that link is on its way.
abbrev far_link : SessionLink QueuePort
far_link = record {
  port = record {
    sent = [];
    events =
        PortEvent.link_up (record { id = 4 })
        ∷ PortEvent.frame (record { id = 4 }) (record { bytes = 5 ∷ [] })
        ∷ [];
  };
  link = far_id;
}

abbrev air : Radio queue near_link.link far_link.link
air = record {
  sent = λ p. p.sent;
  waiting = λ p. frames_of far_id p.events;
  transfer = λ fs q. record q { events = q.events ++ arriving fs };
  sends = λ f p. (record p { sent = p.sent ++ f ∷ [] }, refl, refl);
  brings = λ fs q. frames_of-arriving q.events fs;
  polls = λ q. (q.events, record q { events = [] }, refl, refl);
}

carried_example :
    (p q : QueuePort) × (link_send plain queue (77 ∷ []) roster 7 near_link ready_session
      ≡ (ok tt, record near_link { port = p }, record ready_session { next = 2 }))
    × (link_poll plain trusting queue roster 7
          (record far_link { port = air.transfer (air.sent p) far_link.port })
          bob_session
        ≡ (
          ok (payload (77 ∷ []) ∷ []),
          record far_link { port = q },
          record bob_session { replay = accept 1 default_replay },
        ))
carried_example =
    carried plain trusting queue near_link far_link ready_session bob_session (77 ∷ []) roster
      roster 7 7 air refl refl both-Ends alice-Ready bob-Ready (omega arith) (omega arith)
