-- ===== src/Replication/Presence/Bounds.antt =====
-- What no sequence of radio facts can break: the bound on members and direct neighbours.
use mesh_lab.Prelude.{
  ℕ, ◌+◌, ◌≤◌, ◌<◌, ◌≡◌, refl, ap, ◌∙◌, inl, inr, Bool, true, false, not, ◌&&◌, some, none, length,
  ltb, leb, if◌then◌else◌, ok, err, arith, Bool-cases, Option-cases,
}
use mesh_lab.Prelude.Ord.{equal, equal_iff}
use mesh_lab.Prelude.OrdMap.{
  get, contains_key, IsSorted, insert-IsSorted, get-insert, get-insert_self, length-insert_le,
  length-insert_present, contains_key-get,
}
use mesh_lab.Prelude.Entries.{
  bit, is_some_and, count, count-insert, count_le, Each, insert-Each, remove_all-Each, Each-weaken,
  Each-get, count-remove_all_le, length-remove_all_le, remove_all-IsSorted, get-remove_all,
  any-keys_where,
}
use mesh_lab.Durable.{
  DurableError, Outcome, MemberId, member_ord, max_group_members, max_logical_time,
}
use mesh_lab.Replication.Presence.{
  PresenceTable, KnownMember, PresenceClaim, new, fresh, direct_live, direct_neighbors, stale,
  stale_members, expired_table, expire, unwrap_or, default_known, reserve_member, write,
  observe_direct, disconnect_direct, observe_relay, max_direct_neighbors, and_then, links_full,
  ill_formed, replace_route, differs, unless_failed, valid_time, route_of,
}

-- A direct link was not observed after the time `now`.
abbrev pub seen_by : ℕ → KnownMember → Bool
seen_by now known = not (is_some_and known.direct_at (λ seen. ltb now seen))

-- A table as it stands at the time `now`.
pub record IsValid (now : ℕ) (t : PresenceTable) : Type 0 where
  pub bounded : length t.members ≤ max_group_members
  pub sorted : IsSorted t.members
  pub stranger : get t.local t.members ≡ none
  pub few : direct_neighbors t now ≤ max_direct_neighbors
  pub past : Each (seen_by now) t.members

pub new-IsValid : (local : MemberId) (now : ℕ) → IsValid now (new local)
unfolding new direct_neighbors count get
new-IsValid local now = record {
  bounded = omega arith;
  sorted = tt;
  stranger = refl;
  few = omega arith;
  past = tt;
}

-- A link that is fresh later was fresh before.
live_earlier :
    (now later : ℕ) (known : KnownMember)
    → now ≤ later
    → seen_by now known ≡ true
    → direct_live later known ≡ true
    → direct_live now known ≡ true
unfolding fresh
live_earlier now later known k s f = ground (arith, k, s, f)

-- Time passes.
pub IsValid-later :
    (now later : ℕ) (t : PresenceTable) → now ≤ later → IsValid now t → IsValid later t
unfolding direct_neighbors
IsValid-later now later t h v =
    let fewer =
      count_le (direct_live later) (direct_live now) (seen_by now) t.members
        (λ known. live_earlier now later known h) v.past in
    record {
      bounded = v.bounded;
      sorted = v.sorted;
      stranger = v.stranger;
      few = omega (arith, fewer, v.few);
      past =
          Each-weaken (seen_by now) (seen_by later) t.members (λ known s. ground (arith, h, s))
            v.past;
    }

expired_table-IsValid :
    (now : ℕ) (t : PresenceTable) → IsValid now t → IsValid now (expired_table now t)
unfolding expired_table direct_neighbors
expired_table-IsValid now t v =
    let gone = stale_members now t in
    record {
      bounded = omega (arith, v.bounded, length-remove_all_le gone t.members);
      sorted = remove_all-IsSorted gone t.members v.sorted;
      stranger = ground (arith, v.stranger, get-remove_all t.local gone t.members);
      few = omega (arith, v.few, count-remove_all_le (direct_live now) gone t.members);
      past = remove_all-Each (seen_by now) gone t.members v.past;
    }

-- An entry that is written may be new if there is room, and may be a direct link if there is room
-- for one.
write-IsValid :
    (now : ℕ) (member : MemberId) (known : KnownMember) (t : PresenceTable)
    → IsValid now t
    → equal member t.local ≡ false
    → (get member t.members ≡ none → length t.members < max_group_members)
    → seen_by now known ≡ true
    → direct_neighbors t now + bit (direct_live now known)
      ≤ max_direct_neighbors + bit (is_some_and (get member t.members) (direct_live now))
    → IsValid now (write member known t)
unfolding direct_neighbors
write-IsValid now member known t v other room seen links = record {
  bounded = elim (Option-cases (get member t.members)) [
    | inl e ↦ omega (arith, room e, length-insert_le member known t.members)
    | inr (w, e) ↦ omega (arith, v.bounded, length-insert_present member known t.members v.sorted e)
  ];
  sorted = insert-IsSorted member known t.members v.sorted;
  stranger = ground (
    arith,
    v.stranger,
    other,
    member_ord.cmp_flip member t.local,
    get-insert t.local member known t.members,
  );
  few = omega (arith, links, count-insert (direct_live now) member known t.members v.sorted);
  past = insert-Each (seen_by now) member known t.members seen v.past;
}

-- What is known of a member after the stale ones are dropped.
pub get-expired_table :
    (k : MemberId) (now : ℕ) (t : PresenceTable)
    → IsSorted t.members
    → get k (expired_table now t).members
      ≡ (if is_some_and (get k t.members) (stale now) then none else get k t.members)
unfolding expired_table
get-expired_table k now t s =
    get-remove_all k (stale_members now t) t.members ∙ rw (any-keys_where (stale now) k t.members s)

abbrev pub known_of : MemberId → PresenceTable → KnownMember
known_of member t = unwrap_or (get member t.members) default_known

-- The table with the entry that `reserve_member` makes sure of.
abbrev pub reserved : MemberId → ℕ → PresenceTable → PresenceTable
reserved member now t = let t' = expired_table now t in write member (known_of member t') t'

known_live :
    (member : MemberId) (now : ℕ) (t : PresenceTable)
    → IsSorted t.members
    → is_some_and (get member t.members) (direct_live now)
      ≡ direct_live now (known_of member (expired_table now t))
known_live member now t s = ground (arith, get-expired_table member now t s)

reserved-neighbors :
    (member : MemberId) (now : ℕ) (t : PresenceTable)
    → IsValid now t
    → direct_neighbors (reserved member now t) now ≤ direct_neighbors t now
unfolding direct_neighbors expired_table
reserved-neighbors member now t v =
    let t' = expired_table now t in
    let v' = expired_table-IsValid now t v in
    ground (
      arith,
      count-insert (direct_live now) member (known_of member t') t'.members v'.sorted,
      count-remove_all_le (direct_live now) (stale_members now t) t.members,
    )

known_seen :
    (member : MemberId) (now : ℕ) (t : PresenceTable)
    → Each (seen_by now) t.members
    → seen_by now (known_of member t) ≡ true
known_seen member now t past = elim (Option-cases (get member t.members)) [
  | inl e ↦ rw e
  | inr (w, e) ↦ rw e (Each-get (seen_by now) member w t.members past e)
]

-- An entry that is read or made with its default leaves the table valid.
entry-IsValid :
    (member : MemberId) (now : ℕ) (t : PresenceTable)
    → IsValid now t
    → equal member t.local ≡ false
    → (not (contains_key member t.members) && leb max_group_members (length t.members)) ≡ false
    → IsValid now (write member (known_of member t) t)
entry-IsValid member now t v other room =
    write-IsValid now member (known_of member t) t v other
      (λ e. ground (arith, room, contains_key-get member t.members, e))
      (known_seen member now t v.past) (ground (arith, v.few))

local-expired_table : (now : ℕ) (t : PresenceTable) → (expired_table now t).local ≡ t.local
unfolding expired_table
local-expired_table now t = refl

-- There is room for the member once the stale ones are dropped.
abbrev pub no_room : MemberId → PresenceTable → Bool
no_room member t = not (contains_key member t.members) && leb max_group_members (length t.members)

module _ (member : MemberId) (now : ℕ) (t : PresenceTable) (v : IsValid now t)
    (other : equal member t.local ≡ false)
    (room : no_room member (expired_table now t) ≡ false) where
  reserved-IsValid : IsValid now (reserved member now t)
  reserved-IsValid =
      entry-IsValid member now (expired_table now t) (expired_table-IsValid now t v)
        (rw (local-expired_table now t) other) room

  -- A second write to the entry.
  rewrite-IsValid :
      (known : KnownMember)
      → seen_by now known ≡ true
      → direct_neighbors t now + bit (direct_live now known)
        ≤ max_direct_neighbors + bit (is_some_and (get member t.members) (direct_live now))
      → IsValid now (write member known (reserved member now t))
  rewrite-IsValid known seen links =
      let known' = known_of member (expired_table now t) in
      let there = get-insert_self member known' (expired_table now t).members in
      write-IsValid now member known (reserved member now t) reserved-IsValid
        (rw (local-expired_table now t) other) (λ e. ground (arith, e, there)) seen
        (rw there (
          omega (
            arith,
            links,
            reserved-neighbors member now t v,
            ap bit (known_live member now t v.sorted),
          )))

-- The tables that a call behind `reserve_member` can leave.
module _ {ℓ κ} {B : Type κ} (P : PresenceTable → Type ℓ) (member : MemberId) (now : ℕ)
    (t : PresenceTable) where
  pub reserve_state :
      (next : KnownMember → PresenceTable → Outcome B × PresenceTable)
      → P t
      → P (expired_table now t)
      → (no_room member (expired_table now t) ≡ false
          → P (next (known_of member (expired_table now t)) (reserved member now t)).1)
      → P (and_then (reserve_member member now t) next).1
  unfolding reserve_member expire valid_time
  reserve_state next same dropped granted = ground arith

  pub checked_state :
      (next : Outcome B × PresenceTable) (b : Bool) (e : DurableError)
      → P t
      → (b ≡ false → P next.1)
      → P (if b then (err e, t) else next).1
  checked_state next b e same later = ground arith

  pub timed_state :
      (next : Outcome B × PresenceTable)
      → P t
      → P next.1
      → P (unless_failed (valid_time now) t next).1
  unfolding valid_time
  timed_state next same later = ground arith

abbrev refreshed : MemberId → ℕ → PresenceTable → KnownMember
refreshed member now t = record (known_of member (expired_table now t)) { direct_at = some now }

linked-neighbors :
    (member : MemberId) (now : ℕ) (t : PresenceTable)
    → IsValid now t
    → links_full member now t ≡ false
    → direct_neighbors t now + bit (direct_live now (refreshed member now t))
      ≤ max_direct_neighbors + bit (is_some_and (get member t.members) (direct_live now))
unfolding fresh
linked-neighbors member now t v links = ground (arith, v.few, links)

pub observe_direct-IsValid :
    (member : MemberId) (now : ℕ) (t : PresenceTable)
    → IsValid now t
    → IsValid now (observe_direct member now t).1
unfolding observe_direct
observe_direct-IsValid member now t v = timed_state (IsValid now) member now t _ v (
    checked_state (IsValid now) member now t _ (equal member t.local) _ v (λ other.
      checked_state (IsValid now) member now t _ (links_full member now t) _ v (λ links.
        reserve_state (IsValid now) member now t
          (λ known t'. (
            ok (differs known.direct_at now),
            write member (record known { direct_at = some now }) t',
          ))
          v (expired_table-IsValid now t v)
          (λ room.
            rewrite-IsValid member now t v other room (refreshed member now t) (ground arith)
              (linked-neighbors member now t v links)))))

unlinked-IsValid :
    (member : MemberId) (now : ℕ) (t : PresenceTable) (known : KnownMember)
    → IsValid now t
    → get member t.members ≡ some known
    → IsValid now (write member (record known { direct_at = none }) t)
unlinked-IsValid member now t known v e =
    write-IsValid now member (record known { direct_at = none }) t v
      (elim (Bool-cases (equal member t.local)) [
        | inl same ↦ ground (arith, e, v.stranger, (equal_iff member t.local).0 same)
        | inr other ↦ other
      ])
      (λ none_known. cc) refl (omega (arith, v.few))

pub disconnect_direct-IsValid :
    (member : MemberId) (now : ℕ) (t : PresenceTable)
    → IsValid now t
    → IsValid now (disconnect_direct member t).1
unfolding disconnect_direct
disconnect_direct-IsValid member now t v = elim (Option-cases (get member t.members)) [
  | inl e ↦ ground (arith, e, v)
  | inr (known, e) ↦ ground (arith, e, unlinked-IsValid member now t known v e)
]

routed-IsValid :
    (claim : PresenceClaim) (via : MemberId) (hops now : ℕ) (t : PresenceTable)
    → IsValid now t
    → equal claim.member t.local ≡ false
    → no_room claim.member (expired_table now t) ≡ false
    → IsValid now
        (replace_route claim via hops now
          (known_of claim.member (expired_table now t))
          (reserved claim.member now t)).1
routed-IsValid claim via hops now t v other room =
    let t' = expired_table now t in
    let known = known_of claim.member t' in
    let better : KnownMember = record known {
      routed = some (route_of claim.version via hops now);
    } in
    let seen = known_seen claim.member now t' (expired_table-IsValid now t v).past in
    let links = ap bit (known_live claim.member now t v.sorted) in
    ground (
      arith,
      reserved-IsValid claim.member now t v other room,
      rewrite-IsValid claim.member now t v other room better seen (omega (arith, v.few, links)),
    )

pub observe_relay-IsValid :
    (claim : PresenceClaim) (via : MemberId) (hops now : ℕ) (t : PresenceTable)
    → IsValid now t
    → IsValid now (observe_relay claim via hops now t).1
unfolding observe_relay
observe_relay-IsValid claim via hops now t v = timed_state (IsValid now) claim.member now t _ v (
    checked_state (IsValid now) claim.member now t _ (ill_formed claim via hops t) _ v (λ fine.
      reserve_state (IsValid now) claim.member now t (replace_route claim via hops now) v
        (expired_table-IsValid now t v)
        (λ room. routed-IsValid claim via hops now t v (ground (arith, fine)) room)))

pub expire-IsValid : (now : ℕ) (t : PresenceTable) → IsValid now t → IsValid now (expire now t).1
unfolding expire valid_time
expire-IsValid now t v = ground (arith, v, expired_table-IsValid now t v)

-- Where there is room, `reserve_member` answers what is known after expiry.
pub reserve_member-room :
    (member : MemberId) (now : ℕ) (t : PresenceTable)
    → now ≤ max_logical_time
    → no_room member (expired_table now t) ≡ false
    → reserve_member member now t
      ≡ (ok (known_of member (expired_table now t)), reserved member now t)
unfolding reserve_member expire valid_time
reserve_member-room member now t timely room = ground (arith, timely, room)
