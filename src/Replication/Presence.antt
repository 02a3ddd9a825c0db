-- ===== src/Replication/Presence.antt =====
-- crates/mesh-replication/src/lib.rs: `PresenceTable`, who is reachable now and by which path.
pub mod Bounds
pub mod History
pub mod Expiry
pub mod Routes
mod Tests
use mesh_lab.Prelude.{
  ℕ, ◌+◌, ◌-◌, Bool, true, false, not, ◌&&◌, ◌||◌, List, [], ◌∷◌, Option, some, none, length, ltb,
  leb, ◌==◌, if◌then◌else◌, Result, ok, err, reject, ◌>>=◌,
}
use mesh_lab.Prelude.Ord.{equal}
use mesh_lab.Prelude.OrdMap.{OrdMap, get, contains_key, insert}
use mesh_lab.Prelude.Entries.{is_some_and, count, keys_where, remove_all}
use mesh_lab.Durable.{
  DurableError, Outcome, MemberId, member_ord, invalid_input, resource_pressure, max_logical_time,
  max_group_members,
}

abbrev pub max_direct_neighbors : ℕ
max_direct_neighbors = 2

abbrev pub presence_ttl : ℕ
presence_ttl = 15

abbrev pub max_presence_hops : ℕ
max_presence_hops = 16

pub record PresenceVersion : Type 0 where
  pub incarnation : ℕ
  pub sequence : ℕ

pub record PresenceClaim : Type 0 where
  pub member : MemberId
  pub version : PresenceVersion

pub data PresencePath : Type 0 where
  direct : PresencePath
  routed : MemberId → ℕ → PresencePath

pub record PresenceEntry : Type 0 where
  pub member : MemberId
  pub version : Option PresenceVersion
  pub path : PresencePath

pub record RoutedPresence : Type 0 where
  pub version : PresenceVersion
  pub via : MemberId
  pub hops : ℕ
  pub received_at : ℕ

pub record KnownMember : Type 0 where
  pub direct_at : Option ℕ
  pub routed : Option RoutedPresence

abbrev pub default_known : KnownMember
default_known = record { direct_at = none; routed = none }

pub record PresenceTable : Type 0 where
  pub local : MemberId
  pub members : OrdMap MemberId KnownMember

pub new : MemberId → PresenceTable
new local = record { local = local; members = [] }

-- `a > b` and `a == b` of the derived order: by incarnation, then by sequence.
abbrev pub newer : PresenceVersion → PresenceVersion → Bool
newer a b =
    ltb b.incarnation a.incarnation || (a.incarnation == b.incarnation && ltb b.sequence a.sequence)

abbrev pub same_version : PresenceVersion → PresenceVersion → Bool
same_version a b = a.incarnation == b.incarnation && a.sequence == b.sequence

pub valid_time : ℕ → Outcome (Unit {0})
valid_time now = reject (ltb max_logical_time now) invalid_input

pub fresh : ℕ → ℕ → Bool
fresh seen_at now = leb seen_at now && leb (now - seen_at) presence_ttl

abbrev pub direct_live : ℕ → KnownMember → Bool
direct_live now known = is_some_and known.direct_at (λ seen. fresh seen now)

abbrev pub routed_live : ℕ → KnownMember → Bool
routed_live now known = is_some_and known.routed (λ route. fresh route.received_at now)

pub direct_neighbors : PresenceTable → ℕ → ℕ
direct_neighbors t now = count (direct_live now) t.members

abbrev pub stale : ℕ → KnownMember → Bool
stale now known = not (direct_live now known) && not (routed_live now known)

abbrev pub stale_members : ℕ → PresenceTable → List MemberId
stale_members now t = keys_where (stale now) t.members

-- The table that `expire` leaves when the time is in range.
pub expired_table : ℕ → PresenceTable → PresenceTable
expired_table now t = record t { members = remove_all (stale_members now t) t.members }

pub expire : ℕ → PresenceTable → Outcome (List MemberId) × PresenceTable
unfolding valid_time expired_table
expire now t = elim (valid_time now) [
  | err e ↦ (err e, t)
  | ok _ ↦ (ok (stale_members now t), expired_table now t)
]

-- `?` after a call that may have changed the table.
abbrev pub and_then {ℓ κ} :
    {A : Type ℓ} {B : Type κ}
    → Outcome A × PresenceTable
    → (A → PresenceTable → Outcome B × PresenceTable)
    → Outcome B × PresenceTable
and_then (err e, t) next = (err e, t)
and_then (ok a, t) next = next a t

-- `check?;` before anything of the table changed.
abbrev pub unless_failed {ℓ} :
    {B : Type ℓ}
    → Outcome (Unit {0})
    → PresenceTable
    → Outcome B × PresenceTable
    → Outcome B × PresenceTable
unless_failed (err e) t next = (err e, t)
unless_failed (ok _) t next = next

abbrev pub unwrap_or {ℓ} : {A : Type ℓ} → Option A → A → A
unwrap_or none d = d
unwrap_or (some a) d = a

-- `members.entry(member).or_default()`: the entry, and the table that now holds it.
abbrev pub entry_or_default : MemberId → PresenceTable → KnownMember × PresenceTable
entry_or_default member t =
    let known = unwrap_or (get member t.members) default_known in
    (known, record t { members = insert member known t.members })

pub reserve_member : MemberId → ℕ → PresenceTable → Outcome KnownMember × PresenceTable
unfolding expire
reserve_member member now t = and_then (expire now t) (λ _ t'.
    if not (contains_key member t'.members) && leb max_group_members (length t'.members)
    then (err resource_pressure, t')
    else (let (known, t'') = entry_or_default member t' in (ok known, t'')))

-- A write through the reference that `reserve_member` returned.
abbrev pub write : MemberId → KnownMember → PresenceTable → PresenceTable
write member known t = record t { members = insert member known t.members }

abbrev pub differs : Option ℕ → ℕ → Bool
differs none now = true
differs (some seen) now = not (seen == now)

-- A third direct link beside those that are fresh.
abbrev pub links_full : MemberId → ℕ → PresenceTable → Bool
links_full member now t =
    not (is_some_and (get member t.members) (direct_live now))
    && leb max_direct_neighbors (direct_neighbors t now)

pub observe_direct : MemberId → ℕ → PresenceTable → Outcome Bool × PresenceTable
unfolding valid_time direct_neighbors reserve_member fresh
observe_direct member now t = unless_failed (valid_time now) t (
    if equal member t.local
    then (err invalid_input, t)
    else if links_full member now t
    then (err resource_pressure, t)
    else and_then (reserve_member member now t) (λ known t'.
      (ok (differs known.direct_at now), write member (record known { direct_at = some now }) t')))

pub disconnect_direct : MemberId → PresenceTable → Bool × PresenceTable
disconnect_direct member t = elim (get member t.members) [
  | none ↦ (false, t)
  | some known ↦
      (is_some_and known.direct_at (λ _. true), write member (record known { direct_at = none }) t)
]

abbrev pub replaces : PresenceVersion → ℕ → Option RoutedPresence → Bool
replaces version hops none = true
replaces version hops (some old) =
    newer version old.version || (same_version version old.version && ltb hops old.hops)

abbrev pub route_of : PresenceVersion → MemberId → ℕ → ℕ → RoutedPresence
route_of version via hops now = record {
  version = version;
  via = via;
  hops = hops;
  received_at = now;
}

abbrev pub ill_formed : PresenceClaim → MemberId → ℕ → PresenceTable → Bool
ill_formed claim via hops t =
    equal claim.member t.local
    || equal claim.member via
    || claim.version.incarnation == 0
    || claim.version.sequence == 0
    || not (leb 2 hops && leb hops max_presence_hops)

-- What is done with the entry of the claim's member.
abbrev pub replace_route :
    PresenceClaim → MemberId → ℕ → ℕ → KnownMember → PresenceTable → Outcome Bool × PresenceTable
replace_route claim via hops now known t =
    if replaces claim.version hops known.routed
    then (
      ok true,
      write claim.member (record known { routed = some (route_of claim.version via hops now) }) t,
    )
    else (ok false, t)

pub observe_relay : PresenceClaim → MemberId → ℕ → ℕ → PresenceTable → Outcome Bool × PresenceTable
unfolding valid_time reserve_member
observe_relay claim via hops now t = unless_failed (valid_time now) t (
    if ill_formed claim via hops t
    then (err invalid_input, t)
    else and_then (reserve_member claim.member now t) (replace_route claim via hops now))

abbrev pub version_of : Option RoutedPresence → Option PresenceVersion
version_of none = none
version_of (some route) = some route.version

abbrev pub routed_entry : MemberId → ℕ → Option RoutedPresence → Option PresenceEntry
routed_entry member now none = none
routed_entry member now (some route) =
    if fresh route.received_at now
    then some (record {
      member = member;
      version = some route.version;
      path = routed route.via route.hops;
    })
    else none

-- The answer of `member` for what is known of it.
pub entry_of : MemberId → ℕ → Option KnownMember → Option PresenceEntry
unfolding fresh
entry_of member now none = none
entry_of member now (some known) =
    if direct_live now known
    then some (record { member = member; version = version_of known.routed; path = direct })
    else routed_entry member now known.routed

pub member_path : MemberId → ℕ → PresenceTable → Outcome (Option PresenceEntry)
unfolding valid_time entry_of
member_path member now t = do _ ← valid_time now; ok (entry_of member now (get member t.members))

-- `map(member).filter_map(transpose).collect()` over the keys.
abbrev collect : ℕ → PresenceTable → OrdMap MemberId KnownMember → Outcome (List PresenceEntry)
collect now t [] = ok []
collect now t ((k, _) ∷ m) = member_path k now t >>= λ entry.
    collect now t m >>= λ rest. ok (elim entry [ none ↦ rest | some e ↦ e ∷ rest ])

pub active : ℕ → PresenceTable → Outcome (List PresenceEntry)
unfolding valid_time member_path
active now t = do _ ← valid_time now; collect now t t.members
