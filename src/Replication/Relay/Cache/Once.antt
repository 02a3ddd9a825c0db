-- ===== src/Replication/Relay/Cache/Once.antt =====
-- A frame is forwarded once: while its entry is live and the cache has room, every later frame of the
-- same origin and identifier is refused.
use mesh_lab.Prelude.{
  ℕ, ◌+◌, ◌≤◌, ◌<◌, ◌≡◌, ◌≢◌, refl, sym, subst, ◌∙◌, true, List, [], ◌∷◌, some, length, ltb, ok,
  arith, All, lt→ltb,
}
use mesh_lab.Prelude.OrdMap.{
  get, get-insert, get-insert_self, get-retain, contains_key, contains_key-get, length-insert_le,
  length-retain_le,
}
use mesh_lab.Durable.{MemberId, Outcome}
use mesh_lab.Replication.Relay.{RelayFrame, max_relay_dedup}
use mesh_lab.Replication.Relay.Cache.{
  RelayKey, SeenRelay, RelayCache, RelayDecision, forward, key_ord, valid, expire_seen, reserve,
  key_of, decide, accept, remove_oldest,
}

-- The cache remembers the key until the time `e`.
abbrev pub Holds : RelayKey → ℕ → RelayCache → Type 0
Holds key e c = (s : SeenRelay) × (get key c.seen ≡ some s) × (s.expires_at ≡ e)

expire_seen-Holds :
    (key : RelayKey) (e now : ℕ) (c : RelayCache)
    → now < e
    → Holds key e c
    → Holds key e (expire_seen now c)
unfolding expire_seen
expire_seen-Holds key e now c live (s, got, same) = (
  s,
  get-retain (λ _ s. ltb now s.expires_at) key s c.seen got (lt→ltb now s.expires_at (omega arith)),
  same,
)

contains-Holds :
    (key : RelayKey) (e : ℕ) (c : RelayCache) → Holds key e c → contains_key key c.seen ≡ true
contains-Holds key e c (s, got, _) = contains_key-get key c.seen ∙ ground (arith, got)

decide-Holds :
    (key : RelayKey) (e now : ℕ) (frame : RelayFrame) (c : RelayCache)
    → length c.seen < max_relay_dedup
    → Holds key e c
    → Holds key e (decide frame now c).1
unfolding decide reserve
decide-Holds key e now frame c room (s, got, same) = (
  s,
  ground (
    arith,
    got,
    contains_key-get (key_of frame) c.seen,
    key_ord.cmp_eq key (key_of frame),
    get-insert key (key_of frame) (record { expires_at = frame.expires_at; received_at = now })
        c.seen,
  ),
  same,
)

length-expire_seen : (now : ℕ) (c : RelayCache) → length (expire_seen now c).seen ≤ length c.seen
unfolding expire_seen
length-expire_seen now c = length-retain_le (λ _ s. ltb now s.expires_at) c.seen

-- The two states that a call can leave.
accept_state {ℓ} :
    (P : RelayCache → Type ℓ) (frame : RelayFrame) (via : MemberId) (now : ℕ) (c : RelayCache)
    → P c
    → P (decide frame now (expire_seen now c)).1
    → P (accept frame via now c).1
unfolding accept
accept_state P frame via now c same decided = ground arith

accept-Holds :
    (key : RelayKey) (e : ℕ) (frame : RelayFrame) (via : MemberId) (now : ℕ) (c : RelayCache)
    → now < e
    → length c.seen < max_relay_dedup
    → Holds key e c
    → Holds key e (accept frame via now c).1
unfolding accept
accept-Holds key e frame via now c live room h =
    let later =
      decide-Holds key e now frame (expire_seen now c) (omega (arith, length-expire_seen now c))
        (expire_seen-Holds key e now c live h) in
    accept_state (Holds key e) frame via now c h later

decide-length :
    (frame : RelayFrame) (now : ℕ) (c : RelayCache)
    → length c.seen < max_relay_dedup
    → length (decide frame now c).1.seen ≤ length c.seen + 1
unfolding decide reserve
decide-length frame now c room = ground (
  arith,
  length-insert_le (key_of frame) (record { expires_at = frame.expires_at; received_at = now })
      c.seen,
)

accept-length :
    (frame : RelayFrame) (via : MemberId) (now : ℕ) (c : RelayCache)
    → length c.seen < max_relay_dedup
    → length (accept frame via now c).1.seen ≤ length c.seen + 1
unfolding accept
accept-length frame via now c room =
    ground (arith, decide-length frame now (expire_seen now c), length-expire_seen now c)

-- A frame that was not yet remembered, with the time at which it came and its neighbour.
pub record Arrival : Type 0 where
  pub frame : RelayFrame
  pub via : MemberId
  pub now : ℕ

abbrev pub arrive : Arrival → RelayCache → Outcome RelayDecision × RelayCache
arrive a c = accept a.frame a.via a.now c

pub run : List Arrival → RelayCache → RelayCache
run [] c = c
run (a ∷ rest) c = run rest (arrive a c).1

run-Holds :
    (key : RelayKey) (e : ℕ) (arrivals : List Arrival) (c : RelayCache)
    → All (λ a. a.now < e) arrivals
    → length c.seen + length arrivals ≤ max_relay_dedup
    → Holds key e c
    → Holds key e (run arrivals c)
unfolding run
run-Holds key e [] c before room h = h
run-Holds key e (a ∷ rest) c before room h =
    let next = (arrive a c).1 in
    run-Holds key e rest next before.1 (omega (arith, accept-length a.frame a.via a.now c))
      (accept-Holds key e a.frame a.via a.now c before.0 (omega arith) h)

abbrev entry_of : RelayFrame → ℕ → SeenRelay
entry_of frame now = record { expires_at = frame.expires_at; received_at = now }

decide-forward_Holds :
    (frame out : RelayFrame) (now : ℕ) (c : RelayCache)
    → (decide frame now c).0 ≡ forward out
    → Holds (key_of frame) frame.expires_at (decide frame now c).1
unfolding decide reserve
decide-forward_Holds frame out now c h = (
  record { expires_at = frame.expires_at; received_at = now },
  ground (
    arith,
    h,
    get-insert_self (key_of frame) (entry_of frame now) c.seen,
    get-insert_self (key_of frame) (entry_of frame now) (remove_oldest c.seen),
  ),
  refl,
)

decide_held :
    (frame out : RelayFrame) (e now : ℕ) (c : RelayCache)
    → Holds (key_of frame) e c
    → (decide frame now c).0 ≢ forward out
unfolding decide
decide_held frame out e now c h same = ground (arith, same, contains-Holds (key_of frame) e c h)

accept_held :
    (frame out : RelayFrame) (via : MemberId) (e now : ℕ) (c : RelayCache)
    → now < e
    → Holds (key_of frame) e c
    → (accept frame via now c).0 ≢ ok (forward out)
unfolding accept
accept_held frame out via e now c live h same = ground (
  arith,
  same,
  decide_held frame out e now (expire_seen now c) (expire_seen-Holds (key_of frame) e now c live h),
)

-- A forwarding call went through the checks, and left what `decide` leaves.
pub accept_decides :
    (frame out : RelayFrame) (via : MemberId) (now : ℕ) (c : RelayCache)
    → (accept frame via now c).0 ≡ ok (forward out)
    → (valid frame via now ≡ ok tt)
      × ((decide frame now (expire_seen now c)).0 ≡ forward out)
      × ((accept frame via now c).1 ≡ (decide frame now (expire_seen now c)).1)
unfolding accept
accept_decides frame out via now c h = (ground (arith, h), ground (arith, h), ground (arith, h))

accept-forward_Holds :
    (frame out : RelayFrame) (via : MemberId) (now : ℕ) (c : RelayCache)
    → (accept frame via now c).0 ≡ ok (forward out)
    → Holds (key_of frame) frame.expires_at (accept frame via now c).1
accept-forward_Holds frame out via now c h =
    let (_, decided, left) = accept_decides frame out via now c h in
    subst (Holds (key_of frame) frame.expires_at) (sym left)
      (decide-forward_Holds frame out now (expire_seen now c) decided)

-- After a frame was forwarded, no later frame of the same origin and identifier is forwarded, for as
-- long as the first one lives: whatever frames arrive in between, as long as they and the entries
-- that the cache then holds are no more than its `MAX_RELAY_DEDUP` entries.
pub accept_once :
    (c : RelayCache) (first : Arrival) (out : RelayFrame) (between : List Arrival) (later : Arrival)
    (again : RelayFrame)
    → (arrive first c).0 ≡ ok (forward out)
    → All (λ a. a.now < first.frame.expires_at) between
    → length (arrive first c).1.seen + length between ≤ max_relay_dedup
    → key_of later.frame ≡ key_of first.frame
    → later.now < first.frame.expires_at
    → (arrive later (run between (arrive first c).1)).0 ≢ ok (forward again)
accept_once c first out between later again sent before room same live =
    let start = accept-forward_Holds first.frame out first.via first.now c sent in
    let held =
      run-Holds (key_of first.frame) first.frame.expires_at between (arrive first c).1 before room
        start in
    accept_held later.frame again later.via first.frame.expires_at later.now
      (run between (arrive first c).1) live
      (subst (λ k. Holds k first.frame.expires_at (run between (arrive first c).1)) (sym same) held)
