-- ===== src/Replication/Presence/History.antt =====
-- Everything that can happen to the table of one phone, at times that do not go back.
use mesh_lab.Prelude.{ℕ, ◌≤◌, ◌≡◌, none, length}
use mesh_lab.Prelude.OrdMap.{get}
use mesh_lab.Durable.{MemberId, member_ord, max_group_members}
use mesh_lab.Replication.Presence.{
  PresenceTable, PresenceClaim, new, direct_neighbors, expire, observe_direct, disconnect_direct,
  observe_relay, max_direct_neighbors,
}
use mesh_lab.Replication.Presence.Bounds.{
  IsValid, new-IsValid, IsValid-later, observe_direct-IsValid, disconnect_direct-IsValid,
  observe_relay-IsValid, expire-IsValid,
}

pub data Fact : Type 0 where
  sees : MemberId → Fact
  loses : MemberId → Fact
  hears : PresenceClaim → MemberId → ℕ → Fact
  expires : Fact

-- The table after a fact, whether the call succeeds or fails.
unfoldable pub apply : Fact → ℕ → PresenceTable → PresenceTable
apply (sees member) now t = (observe_direct member now t).1
apply (loses member) now t = (disconnect_direct member t).1
apply (hears claim via hops) now t = (observe_relay claim via hops now t).1
apply expires now t = (expire now t).1

pub data History (local : MemberId) : ℕ → PresenceTable → Type 0 where
  starts : (now : ℕ) → History local now (new local)
  goes_on :
      {now : ℕ} {t : PresenceTable} (fact : Fact) (later : ℕ)
      → now ≤ later
      → History local now t
      → History local later (apply fact later t)

apply-IsValid :
    (fact : Fact) (now : ℕ) (t : PresenceTable) → IsValid now t → IsValid now (apply fact now t)
unfolding apply
apply-IsValid (sees member) now t v = observe_direct-IsValid member now t v
apply-IsValid (loses member) now t v = disconnect_direct-IsValid member now t v
apply-IsValid (hears claim via hops) now t v = observe_relay-IsValid claim via hops now t v
apply-IsValid expires now t v = expire-IsValid now t v

History-IsValid :
    {local : MemberId} {now : ℕ} {t : PresenceTable} → History local now t → IsValid now t
History-IsValid {local} (starts now) = new-IsValid local now
History-IsValid (goes_on {now = now} {t = t} fact later h past) =
    apply-IsValid fact later t (IsValid-later now later t h (History-IsValid past))

-- Whatever a phone sees, loses, hears or lets expire, and whatever of it fails: as long as its clock
-- does not go back, at no later time does its table hold more than 50 members, more than two fresh
-- direct neighbours, or the phone itself.
pub History-bounded :
    {local : MemberId} {now : ℕ} {t : PresenceTable} (later : ℕ)
    → History local now t
    → now ≤ later
    → (length t.members ≤ max_group_members)
      × (direct_neighbors t later ≤ max_direct_neighbors)
      × (get t.local t.members ≡ none)
History-bounded {now = now} {t = t} later past h =
    let v = IsValid-later now later t h (History-IsValid past) in (v.bounded, v.few, v.stranger)
