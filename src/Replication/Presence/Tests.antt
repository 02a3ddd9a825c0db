-- ===== src/Replication/Presence/Tests.antt =====
-- Phone 1 sees phone 2 directly, hears of phone 3 over it, and then hears nothing.
use mesh_lab.Prelude.{
  ℕ, ◌≤◌, ◌≡◌, ◌↔◌, refl, true, false, [], ◌∷◌, any, some, none, length, replicate, ok, arith,
}
use mesh_lab.Prelude.Ord.{equal}
use mesh_lab.Prelude.OrdMap.{get, contains_key, insert, remove, IsSorted}
use mesh_lab.Prelude.Entries.{count, keys_where, remove_all}
use mesh_lab.Durable.{MemberId, member_ord}
use mesh_lab.Replication.Presence.{
  PresenceTable, PresenceClaim, KnownMember, RoutedPresence, new, newer, stale, fresh, valid_time,
  direct_neighbors, expired_table, expire, reserve_member, observe_direct, observe_relay,
  member_path,
}
use mesh_lab.Replication.Presence.History.{
  History, starts, goes_on, sees, hears, apply, History-bounded,
}
use mesh_lab.Replication.Presence.Expiry.{expire_lem}
use mesh_lab.Replication.Presence.Routes.{apply-at_least}

abbrev member : ℕ → MemberId
member n = record { id = replicate 32 n }

abbrev claim : ℕ → PresenceClaim
claim sequence = record {
  member = member 3;
  version = record { incarnation = 1; sequence = sequence };
}

abbrev seen_one : PresenceTable
seen_one = apply (sees (member 2)) 10 (new (member 1))

abbrev heard_one : PresenceTable
heard_one = apply (hears (claim 5) (member 2) 2) 12 seen_one

way : History (member 1) 12 heard_one
way =
    goes_on (hears (claim 5) (member 2) 2) 12 (omega arith)
      (goes_on (sees (member 2)) 10 (omega arith) (starts 0))

History-bounded_example :
    (length heard_one.members ≤ 50)
    × (direct_neighbors heard_one 20 ≤ 2)
    × (get heard_one.local heard_one.members ≡ none)
History-bounded_example = History-bounded 20 way (omega arith)

abbrev third : KnownMember
third = record {
  direct_at = none;
  routed =
      some (record { version = (claim 5).version; via = member 2; hops = 2; received_at = 12 });
}

abbrev table : PresenceTable
table = record {
  local = member 1;
  members = (member 2, record { direct_at = some 10; routed = none }) ∷ (member 3, third) ∷ [];
}

table_reached : heard_one ≡ table
unfolding apply new valid_time fresh direct_neighbors expired_table expire reserve_member
    observe_direct observe_relay get contains_key insert count keys_where remove_all
table_reached = refl

sorted : IsSorted table.members
sorted = ((refl, tt), (tt, tt))

abbrev at_26 : PresenceTable
at_26 = record table { members = (member 3, third) ∷ [] }

expired_at_26 : expire 26 table ≡ (ok (member 2 ∷ []), at_26)
unfolding expire valid_time fresh expired_table keys_where remove_all remove
expired_at_26 = refl

expire_lem_example :
    (member_path (member 2) 26 at_26 ≡ member_path (member 2) 26 table)
    × ((any (equal (member 2)) (member 2 ∷ []) ≡ true) ↔ (
        (contains_key (member 2) table.members ≡ true)
        × (member_path (member 2) 26 table ≡ ok none)))
expire_lem_example = expire_lem (member 2) 26 table at_26 (member 2 ∷ []) sorted expired_at_26

third_there : get (member 3) table.members ≡ some third
unfolding get
third_there = refl

third_alive : stale 20 third ≡ false
unfolding fresh
third_alive = refl

apply-at_least_example :
    (after : KnownMember) × (route : RoutedPresence) × (get
        (member 3)
        (apply (hears (claim 6) (member 2) 4) 20 table).members
      ≡ some after)
    × (after.routed ≡ some route)
    × (newer (claim 5).version route.version ≡ false)
apply-at_least_example =
    apply-at_least (hears (claim 6) (member 2) 4) 20 table (member 3) third
      (record { version = (claim 5).version; via = member 2; hops = 2; received_at = 12 }) sorted
      third_there refl third_alive
