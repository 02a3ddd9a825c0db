-- ===== src/Replication/Presence/Expiry.antt =====
-- What expiry takes away: the members that were not reachable any more, and nothing else.
use mesh_lab.Prelude.{
  ℕ, ◌≡◌, refl, sym, ap, ◌∙◌, ◌↔◌, inl, inr, true, List, Option, some, none, ok, arith, any,
  Bool-cases, Option-cases,
}
use mesh_lab.Prelude.Ord.{equal}
use mesh_lab.Prelude.OrdMap.{get, contains_key, contains_key-get, IsSorted}
use mesh_lab.Prelude.Entries.{is_some_and, any-keys_where}
use mesh_lab.Durable.{Outcome, MemberId, member_ord}
use mesh_lab.Replication.Presence.{
  PresenceTable, KnownMember, PresenceEntry, stale, stale_members, expired_table, expire, entry_of,
  member_path, valid_time,
}
use mesh_lab.Replication.Presence.Bounds.{get-expired_table}

-- What is stale has no path.
entry_of-stale :
    (k : MemberId) (now : ℕ) (known : KnownMember)
    → (stale now known ≡ true) ↔ (entry_of k now (some known) ≡ none)
unfolding entry_of
entry_of-stale k now known = (λ h. ground (arith, h), λ h. ground (arith, h))

expire_inv :
    (now : ℕ) (t t' : PresenceTable) (gone : List MemberId)
    → expire now t ≡ (ok gone, t')
    → (gone ≡ stale_members now t) × (t' ≡ expired_table now t) × (valid_time now ≡ ok tt)
unfolding expire valid_time
expire_inv now t t' gone h = (ground (arith, h), ground (arith, h), ground (arith, h))

entry_of-none : (k : MemberId) (now : ℕ) → entry_of k now none ≡ none
unfolding entry_of
entry_of-none k now = refl

entry_of-expired_table :
    (k : MemberId) (now : ℕ) (t : PresenceTable)
    → IsSorted t.members
    → entry_of k now (get k (expired_table now t).members) ≡ entry_of k now (get k t.members)
entry_of-expired_table k now t s = elim (Option-cases (get k t.members)) [
  | inl e ↦ ap (entry_of k now) (get-expired_table k now t s ∙ rw e)
  | inr (known, e) ↦ elim (Bool-cases (stale now known)) [
    | inl gone ↦
        ap (entry_of k now) (get-expired_table k now t s ∙ ground (arith, e, gone))
        ∙ entry_of-none k now
        ∙ sym (ap (entry_of k now) e ∙ (entry_of-stale k now known).0 gone)
    | inr left ↦ ap (entry_of k now) (get-expired_table k now t s ∙ ground (arith, e, left))
  ]
]

gone_iff :
    (k : MemberId) (now : ℕ) (t : PresenceTable)
    → (is_some_and (get k t.members) (stale now) ≡ true) ↔ (
        (contains_key k t.members ≡ true)
        × (◌≡◌ {A = Outcome (Option PresenceEntry)}
            (ok (entry_of k now (get k t.members)))
            (ok none)))
gone_iff k now t = elim (Option-cases (get k t.members)) [
  | inl e ↦ rw (contains_key-get k t.members, e) (λ h. cc, λ h. cc)
  | inr (known, e) ↦
      let (there, back) = entry_of-stale k now known in
      rw (contains_key-get k t.members, e)
        (λ h. (refl, ap ok (there h)), λ h. back (ground (arith, h)))
]

-- A successful expiry changes no answer of `member` at that time, and it reports a member exactly if
-- the member was in the table and had neither a direct nor a routed path left.
pub expire_lem :
    (k : MemberId) (now : ℕ) (t t' : PresenceTable) (gone : List MemberId)
    → IsSorted t.members
    → expire now t ≡ (ok gone, t')
    → (member_path k now t' ≡ member_path k now t)
      × ((any (equal k) gone ≡ true)
          ↔ ((contains_key k t.members ≡ true) × (member_path k now t ≡ ok none)))
unfolding member_path
expire_lem k now t t' gone s h =
    let (list, table, timely) = expire_inv now t t' gone h in
    let listed = any-keys_where (stale now) k t.members s in
    (
      rw (table, timely, entry_of-expired_table k now t s),
      rw (list, timely, listed) (gone_iff k now t),
    )
