-- ===== src/Replication/Transport/Tests.antt =====
-- Two good links and a faster one that leads back.
use mesh_lab.Prelude.{ℕ, ◌≡◌, refl, ◌↔◌, true, List, [], ◌∷◌, some, none, replicate, ok}
use mathlib.Core.List.{Memᴰ}
use mesh_lab.Durable.{MemberId, member_ord}
use mesh_lab.Replication.Transport.{
  TransportCandidate, TransportChoice, TransportDecision, TransportKind, wifi_aware, bluetooth,
  no_route, switch, candidate_choice, gather, insert_candidate, sort_candidates, select_transport,
}
use mesh_lab.Replication.Transport.Selection.{
  IsBest, Usable, select_transport-some, select_transport-none_iff,
}

abbrev member : ℕ → MemberId
member n = record { id = replicate 32 n }

abbrev link : ℕ → TransportKind → ℕ → TransportCandidate
link n kind eta = record {
  peer = member n;
  transport = kind;
  authenticated = true;
  healthy = true;
  eta_millis = eta;
}

abbrev offered : List TransportCandidate
offered = link 2 bluetooth 40 ∷ link 3 wifi_aware 20 ∷ link 4 wifi_aware 5 ∷ []

abbrev used : TransportChoice
used = candidate_choice (link 2 bluetooth 40)

abbrev better : TransportChoice
better = candidate_choice (link 3 wifi_aware 20)

switched :
    select_transport (member 1) (some used) offered (some (member 4)) ≡ ok (switch used better)
unfolding select_transport gather sort_candidates insert_candidate
switched = refl

select_transport-some_example : IsBest (member 1) (some (member 4)) offered better
select_transport-some_example =
    select_transport-some (member 1) (some used) offered (some (member 4)) (switch used better)
      better switched refl

abbrev back_only : List TransportCandidate
back_only = link 4 wifi_aware 5 ∷ []

stuck : select_transport (member 1) none back_only (some (member 4)) ≡ ok no_route
unfolding select_transport gather sort_candidates
stuck = refl

select_transport-none_iff_example :
    (◌≡◌ {A = TransportDecision} no_route no_route)
    ↔ ((x : TransportCandidate) → Memᴰ x back_only → ¬ Usable (some (member 4)) x)
select_transport-none_iff_example =
    select_transport-none_iff (member 1) none back_only (some (member 4)) no_route stuck
