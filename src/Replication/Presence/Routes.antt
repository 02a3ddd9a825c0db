-- ===== src/Replication/Presence/Routes.antt =====
-- The relayed route of a member: it never goes back to an older version while the member is
-- reachable, and it stays when the direct link is lost.
use mesh_lab.Prelude.{
  ℕ, ◌≡◌, refl, ap, inl, inr, Bool, true, false, not, Option, some, none, ok, ◌>>=◌, arith,
  Bool-cases, Option-cases, if◌then◌else◌,
}
use mesh_lab.Prelude.Ord.{equal, equal_iff}
use mesh_lab.Prelude.OrdMap.{get, get-insert, IsSorted}
use mesh_lab.Prelude.Entries.{is_some_and}
use mesh_lab.Durable.{MemberId, member_ord}
use mesh_lab.Replication.Presence.{
  PresenceTable, PresenceClaim, PresenceVersion, PresenceEntry, KnownMember, RoutedPresence, newer,
  replaces, stale, expired_table, expire, entry_of, routed_entry, member_path, valid_time, write,
  observe_direct, disconnect_direct, observe_relay, replace_route, ill_formed, links_full, differs,
  route_of,
}
use mesh_lab.Replication.Presence.Bounds.{
  get-expired_table, known_of, reserved, timed_state, checked_state, reserve_state,
}
use mesh_lab.Replication.Presence.History.{Fact, sees, loses, hears, expires, apply}

-- What is known has a route, and not an older one than `old`.
abbrev pub at_least : RoutedPresence → Option KnownMember → Bool
at_least old known =
    is_some_and known (λ m. is_some_and m.routed (λ route. not (newer old.version route.version)))

module _ (old : RoutedPresence) (k : MemberId) where
  write-at_least :
      (member : MemberId) (known : KnownMember) (t : PresenceTable)
      → at_least old (get k t.members) ≡ true
      → (equal k member ≡ true → at_least old (some known) ≡ true)
      → at_least old (get k (write member known t).members) ≡ true
  write-at_least member known t h w = elim (Bool-cases (equal k member)) [
    | inl same ↦ rw (get-insert k member known t.members, same) (w same)
    | inr other ↦ rw (get-insert k member known t.members, other) h
  ]

  known_of-at_least :
      (member : MemberId) (t : PresenceTable)
      → at_least old (get k t.members) ≡ true
      → equal k member ≡ true
      → at_least old (some (known_of member t)) ≡ true
  known_of-at_least member t h same =
      ground (arith, h, ap (λ j. get j t.members) ((equal_iff k member).0 same))

  -- A route that is replaced was not newer.
  replaces-at_least :
      (version : PresenceVersion) (hops : ℕ) (known : KnownMember)
      → replaces version hops known.routed ≡ true
      → at_least old (some known) ≡ true
      → not (newer old.version version) ≡ true
  replaces-at_least version hops known better h = ground (arith, better, h)

  module _ (now : ℕ) (t : PresenceTable) (s : IsSorted t.members)
      (h : at_least old (get k t.members) ≡ true)
      (alive : is_some_and (get k t.members) (stale now) ≡ false) where
    expired-at_least : at_least old (get k (expired_table now t).members) ≡ true
    expired-at_least = rw (get-expired_table k now t s, alive) h

    reserved-at_least :
        (member : MemberId) → at_least old (get k (reserved member now t).members) ≡ true
    reserved-at_least member =
        write-at_least member (known_of member (expired_table now t)) (expired_table now t)
          expired-at_least (known_of-at_least member (expired_table now t) expired-at_least)

    replaced-at_least :
        (claim : PresenceClaim) (via : MemberId) (hops : ℕ)
        → at_least old (
            get k
              (replace_route claim via hops now
                (known_of claim.member (expired_table now t))
                (reserved claim.member now t)).1.members)
          ≡ true
    replaced-at_least claim via hops =
        let known = known_of claim.member (expired_table now t) in
        let same = known_of-at_least claim.member (expired_table now t) expired-at_least in
        elim (Bool-cases (replaces claim.version hops known.routed)) [
          | inl better ↦ rw better (
              write-at_least claim.member
                (record known { routed = some (route_of claim.version via hops now) })
                (reserved claim.member now t) (reserved-at_least claim.member)
                (λ e. replaces-at_least claim.version hops known better (same e)))
          | inr worse ↦ rw worse (reserved-at_least claim.member)
        ]

    HasNewer : PresenceTable → Type 0
    HasNewer t' = at_least old (get k t'.members) ≡ true

    direct-at_least : (member : MemberId) → HasNewer (observe_direct member now t).1
    unfolding HasNewer observe_direct
    direct-at_least member = timed_state HasNewer member now t _ h (
        checked_state HasNewer member now t _ (equal member t.local) _ h (λ other.
          checked_state HasNewer member now t _ (links_full member now t) _ h (λ links.
            reserve_state HasNewer member now t
              (λ known t'. (
                ok (differs known.direct_at now),
                write member (record known { direct_at = some now }) t',
              ))
              h expired-at_least
              (λ room.
                let known = known_of member (expired_table now t) in
                write-at_least member (record known { direct_at = some now })
                  (reserved member now t) (reserved-at_least member)
                  (known_of-at_least member (expired_table now t) expired-at_least)))))

    relay-at_least :
        (claim : PresenceClaim) (via : MemberId) (hops : ℕ)
        → HasNewer (observe_relay claim via hops now t).1
    unfolding HasNewer observe_relay
    relay-at_least claim via hops = timed_state HasNewer claim.member now t _ h (
        checked_state HasNewer claim.member now t _ (ill_formed claim via hops t) _ h (λ fine.
          reserve_state HasNewer claim.member now t (replace_route claim via hops now) h
            expired-at_least (λ room. replaced-at_least claim via hops)))

    expire-at_least : HasNewer (expire now t).1
    unfolding HasNewer expire valid_time
    expire-at_least = ground (arith, h, expired-at_least)

    disconnect-at_least : (member : MemberId) → HasNewer (disconnect_direct member t).1
    unfolding HasNewer disconnect_direct
    disconnect-at_least member = elim (Option-cases (get member t.members)) [
      | inl e ↦ ground (arith, e, h)
      | inr (known, e) ↦ ground (
        arith,
        e,
        write-at_least member (record known { direct_at = none }) t h
            (λ same. ground (arith, h, e, (equal_iff k member).0 same)),
      )
    ]

    fact-at_least : (fact : Fact) → HasNewer (apply fact now t)
    unfolding HasNewer apply
    fact-at_least (sees member) = direct-at_least member
    fact-at_least (loses member) = disconnect-at_least member
    fact-at_least (hears claim via hops) = relay-at_least claim via hops
    fact-at_least expires = expire-at_least

at_least_inv :
    (old : RoutedPresence) (o : Option KnownMember)
    → at_least old o ≡ true
    → (after : KnownMember) × (route : RoutedPresence) × (o ≡ some after)
      × (after.routed ≡ some route)
      × (newer old.version route.version ≡ false)
at_least_inv old none h = cc
at_least_inv old (some known) h = elim (Option-cases known.routed) [
  | inl e ↦ ground (arith, h, e)
  | inr (route, e) ↦ (known, route, refl, e, ground (arith, h, e))
]

-- While a member is reachable, nothing that happens replaces its route by one with an older version.
pub apply-at_least :
    (fact : Fact) (now : ℕ) (t : PresenceTable) (k : MemberId) (known : KnownMember)
    (old : RoutedPresence)
    → IsSorted t.members
    → get k t.members ≡ some known
    → known.routed ≡ some old
    → stale now known ≡ false
    → (after : KnownMember) × (route : RoutedPresence) × (get k (apply fact now t).members
        ≡ some after)
      × (after.routed ≡ some route)
      × (newer old.version route.version ≡ false)
unfolding HasNewer
apply-at_least fact now t k known old s e r alive =
    let h : at_least old (get k t.members) ≡ true = ground (arith, e, r) in
    let reachable : is_some_and (get k t.members) (stale now) ≡ false = ground (arith, e, alive) in
    at_least_inv old (get k (apply fact now t).members)
      (fact-at_least old k now t s h reachable fact)

-- The answer for what is known, its direct link aside.
abbrev pub routed_answer : MemberId → ℕ → Option KnownMember → Option PresenceEntry
routed_answer k now none = none
routed_answer k now (some known) = routed_entry k now known.routed

unlinked_entry :
    (k : MemberId) (now : ℕ) (known : KnownMember)
    → entry_of k now (some (record known { direct_at = none })) ≡ routed_entry k now known.routed
unfolding entry_of
unlinked_entry k now known = refl

nothing_known : (k : MemberId) (now : ℕ) → entry_of k now none ≡ none
unfolding entry_of
nothing_known k now = refl

entry_of-disconnect_direct :
    (k member : MemberId) (now : ℕ) (t : PresenceTable)
    → entry_of k now (get k (disconnect_direct member t).1.members) ≡ (
        if equal k member
        then routed_answer k now (get k t.members)
        else entry_of k now (get k t.members))
unfolding disconnect_direct
entry_of-disconnect_direct k member now t = elim (Option-cases (get member t.members)) [
  | inl e ↦ ground (arith, e, nothing_known k now, (equal_iff k member).0)
  | inr (known, e) ↦ ground (
    arith,
    e,
    (equal_iff k member).0,
    unlinked_entry k now known,
    get-insert k member (record known { direct_at = none }) t.members,
  )
]

-- Losing the direct link changes no other member's answer, and leaves the member its relayed route.
pub disconnect_direct_lem :
    (k member : MemberId) (now : ℕ) (t : PresenceTable)
    → member_path k now (disconnect_direct member t).1 ≡ (do
      _ ← valid_time now
      ok (
          if equal k member
          then routed_answer k now (get k t.members)
          else entry_of k now (get k t.members)))
unfolding member_path
disconnect_direct_lem k member now t =
    ap (λ entry. valid_time now >>= (λ _. ok entry)) (entry_of-disconnect_direct k member now t)
