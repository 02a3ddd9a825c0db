-- ===== src/Replication/Relay/Cache/Tests.antt =====
-- A frame on its way from one phone over a second one to a third.
use mesh_lab.Prelude.{◌+◌, ◌-◌, ◌≤◌, ◌≡◌, ◌≢◌, refl, List, [], ◌∷◌, length, replicate, ok, arith}
use mesh_lab.Prelude.OrdMap.{contains_key, retain, insert}
use mesh_lab.Replication.Relay.{RelayFrame}
use mesh_lab.Replication.Relay.Tests.{member, frame_at, sent, passed_on}
use mesh_lab.Replication.Relay.Cache.{
  RelayCache, forward, new, valid, expire_seen, decide, reserve, accept, key_of,
}
use mesh_lab.Replication.Relay.Cache.Bounds.{IsValid, new-IsValid, accept-IsValid}
use mesh_lab.Replication.Relay.Cache.Once.{Arrival, arrive, run, accept_once}
use mesh_lab.Replication.Relay.Cache.Hops.{Travels, stays, hops_on, Travels-bounded}

abbrev second_phone : RelayCache
second_phone = new (member 2)

forwarded : (accept sent (member 1) 10 second_phone).0 ≡ ok (forward passed_on)
unfolding accept new valid expire_seen decide reserve contains_key retain insert
forwarded = refl

accept-IsValid_example : IsValid (accept sent (member 1) 10 second_phone).1
accept-IsValid_example = accept-IsValid sent (member 1) 10 second_phone (new-IsValid (member 2))

way : Travels sent (second_phone ∷ []) passed_on
way = hops_on second_phone 10 forwarded (stays passed_on)

Travels-bounded_example :
    (1 ≡ 0 + length (second_phone ∷ []))
    × (passed_on.hop_limit ≡ sent.hop_limit)
    × (passed_on.expires_at ≡ sent.expires_at)
    × (key_of passed_on ≡ key_of sent)
    × (1 ≤ 4 - 0)
    × (1 ≤ 16)
Travels-bounded_example = Travels-bounded way

abbrev first_arrival : Arrival
first_arrival = record { frame = sent; via = member 1; now = 10 }

abbrev other_frame : RelayFrame
other_frame = record sent { id = record { id = replicate 16 4 } }

abbrev between : List Arrival
between = record { frame = other_frame; via = member 1; now = 20 } ∷ []

abbrev later : Arrival
later = record { frame = frame_at (member 3) 2; via = member 3; now = 30 }

small_cache : length (arrive first_arrival second_phone).1.seen + 1 ≤ 512
unfolding accept new valid expire_seen decide reserve contains_key retain insert
small_cache = omega arith

accept_once_example :
    (arrive later (run between (arrive first_arrival second_phone).1)).0
    ≢ ok (forward (frame_at (member 2) 3))
accept_once_example =
    accept_once second_phone first_arrival passed_on between later (frame_at (member 2) 3) forwarded
      (omega arith) small_cache refl (omega arith)
