-- ===== src/Replication/Relay/Cache/Hops.antt =====
-- What a forwarding phone sends on, and how far a frame can travel.
use mesh_lab.Prelude.{ℕ, ◌+◌, ◌≤◌, ◌<◌, ◌≡◌, refl, ap, ◌-◌, ◌∙◌, ok, arith, List, [], ◌∷◌, length}
use mesh_lab.Durable.{MemberId, member_cmp_eq}
use mesh_lab.Replication.Relay.{RelayFrame}
use mesh_lab.Replication.Relay.Framing.{HopsInRange}
use mesh_lab.Replication.Relay.Cache.{
  RelayCache, forward, valid, expire_seen, decide, accept, key_of,
}
use mesh_lab.Replication.Relay.Cache.Once.{accept_decides}

decide-forward_inv :
    (frame out : RelayFrame) (now : ℕ) (c : RelayCache)
    → (decide frame now c).0 ≡ forward out
    → (out ≡ record frame { previous_hop = c.local; hops = frame.hops + 1 })
      × (frame.hops < frame.hop_limit)
      × (now < frame.expires_at)
unfolding decide
decide-forward_inv frame out now c h = (ground (arith, h), ground (arith, h), ground (arith, h))

valid_inv :
    (frame : RelayFrame) (via : MemberId) (now : ℕ)
    → valid frame via now ≡ ok tt
    → HopsInRange frame × (frame.previous_hop ≡ via)
unfolding valid
valid_inv frame via now h = (
  (ground (arith, h), ground (arith, h), ground (arith, h), ground (arith, h)),
  member_cmp_eq frame.previous_hop via (ground (arith, h)),
)

local-expire_seen : (now : ℕ) (c : RelayCache) → (expire_seen now c).local ≡ c.local
unfolding expire_seen
local-expire_seen now c = refl

-- A forwarded frame names this phone as its previous hop and counts one hop more, within the limit;
-- nothing else of it is changed, it is still alive, and its hops and lifetime are in the range that
-- the next phone's decoder accepts.
pub accept-forward_inv :
    (frame out : RelayFrame) (via : MemberId) (now : ℕ) (c : RelayCache)
    → (accept frame via now c).0 ≡ ok (forward out)
    → (out ≡ record frame { previous_hop = c.local; hops = frame.hops + 1 })
      × HopsInRange out
      × (now < out.expires_at)
      × (frame.previous_hop ≡ via)
accept-forward_inv frame out via now c h =
    let (checked, decided, _) = accept_decides frame out via now c h in
    let (ranges, previous) = valid_inv frame via now checked in
    let (sent, below, alive) = decide-forward_inv frame out now (expire_seen now c) decided in
    let whole =
      sent
      ∙ ap (λ m. record frame { previous_hop = m; hops = frame.hops + 1 })
          (local-expire_seen now c) in
    (whole, rw whole (omega (arith, ranges, below)), rw whole alive, previous)

-- A frame's way through the group: each phone on it, in whatever state, forwards what it got.
pub data Travels : RelayFrame → List RelayCache → RelayFrame → Type 0 where
  stays : (f : RelayFrame) → Travels f [] f
  hops_on :
      {f g h : RelayFrame} {rest : List RelayCache} (c : RelayCache) (now : ℕ)
      → (accept f f.previous_hop now c).0 ≡ ok (forward g)
      → Travels g rest h
      → Travels f (c ∷ rest) h

-- However the phones decide, a frame that passed them keeps its origin, identifier, limit and
-- lifetime and counts each of them as a hop; so it passes no more than its limit leaves, and never
-- more than 16.
pub Travels-bounded :
    {f h : RelayFrame} {phones : List RelayCache}
    → Travels f phones h
    → (h.hops ≡ f.hops + length phones)
      × (h.hop_limit ≡ f.hop_limit)
      × (h.expires_at ≡ f.expires_at)
      × (key_of h ≡ key_of f)
      × (length phones ≤ f.hop_limit - f.hops)
      × (length phones ≤ 16)
Travels-bounded (stays f) = (omega arith, refl, refl, refl, omega arith, omega arith)
Travels-bounded (hops_on {f = f} {g = g} {h = h} {rest = rest} c now sent more) =
    let (same, ranges, _, _) = accept-forward_inv f g f.previous_hop now c sent in
    let (n, l, e, k, left, _) = Travels-bounded more in
    let hops : g.hops ≡ f.hops + 1 = ap (λ t. t.hops) same in
    let limit : g.hop_limit ≡ f.hop_limit = ap (λ t. t.hop_limit) same in
    (
      omega arith,
      l ∙ limit,
      e ∙ ap (λ t. t.expires_at) same,
      k ∙ ap key_of same,
      omega (arith, ranges),
      omega (arith, ranges),
    )
