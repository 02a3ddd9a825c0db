-- ===== src/Replication/Transport.antt =====
-- crates/mesh-replication/src/lib.rs: `select_transport`, the next hop of a durable attempt.
pub mod Sorting
pub mod Selection
mod Tests
use mesh_lab.Prelude.{
  Ordering, ℕ, Bool, true, false, not, ◌&&◌, ◌||◌, List, [], ◌∷◌, ◌++◌, Option, some, none, any,
  compare, ltb, ◌==◌, if◌then◌else◌, ok, err, ◌>>=◌, ◌>>◌, reject,
}
use mesh_lab.Prelude.Ord.{equal, first, is_lt, cmp_bytes}
use mesh_lab.Durable.{Outcome, MemberId, member_ord, invalid_input}

pub data TransportKind : Type 0 where
  wifi_aware bluetooth : TransportKind

abbrev pub same_kind : TransportKind → TransportKind → Bool
same_kind wifi_aware wifi_aware = true
same_kind bluetooth bluetooth = true
same_kind _ _ = false

pub record TransportCandidate : Type 0 where
  pub peer : MemberId
  pub transport : TransportKind
  pub authenticated : Bool
  pub healthy : Bool
  pub eta_millis : ℕ

pub record TransportChoice : Type 0 where
  pub peer : MemberId
  pub transport : TransportKind
  pub eta_millis : ℕ

pub data TransportDecision : Type 0 where
  no_route : TransportDecision
  send : TransportChoice → TransportDecision
  keep : TransportChoice → TransportDecision
  switch : TransportChoice → TransportChoice → TransportDecision

abbrev pub transport_rank : TransportKind → ℕ
transport_rank wifi_aware = 0
transport_rank bluetooth = 1

abbrev pub candidate_choice : TransportCandidate → TransportChoice
candidate_choice c = record { peer = c.peer; transport = c.transport; eta_millis = c.eta_millis }

abbrev pub is_member : Option MemberId → MemberId → Bool
is_member none m = false
is_member (some n) m = equal n m

-- The candidates that the loop passes over.
abbrev pub passed_over : Option MemberId → TransportCandidate → Bool
passed_over received_from c = not c.authenticated || not c.healthy || is_member received_from c.peer

abbrev pub same_link : MemberId → TransportKind → TransportCandidate → Bool
same_link peer transport c = equal c.peer peer && same_kind c.transport transport

-- The loop over the candidates, with those already found eligible.
unfoldable pub gather :
    MemberId
    → Option MemberId
    → List TransportCandidate
    → List TransportCandidate
    → Outcome (List TransportCandidate)
gather local received_from eligible [] = ok eligible
gather local received_from eligible (c ∷ rest) =
    let on = gather local received_from eligible rest in
    let with_it = gather local received_from (eligible ++ c ∷ []) rest in
    if equal c.peer local
    then err invalid_input
    else if passed_over received_from c
    then on
    else if c.eta_millis == 0 || any (same_link c.peer c.transport) eligible
    then err invalid_input
    else with_it

-- The key that the candidates are sorted by: estimate, rank, member.
abbrev pub key_cmp : TransportCandidate → TransportCandidate → Ordering
key_cmp a b = first (compare a.eta_millis b.eta_millis) (
    first (compare (transport_rank a.transport) (transport_rank b.transport))
      (cmp_bytes a.peer.id b.peer.id))

unfoldable pub insert_candidate :
    TransportCandidate → List TransportCandidate → List TransportCandidate
insert_candidate c [] = c ∷ []
insert_candidate c (x ∷ xs) =
    let rest = insert_candidate c xs in if is_lt (key_cmp x c) then x ∷ rest else c ∷ x ∷ xs

-- `sort_unstable_by_key`: no two eligible candidates have one key.
unfoldable pub sort_candidates : List TransportCandidate → List TransportCandidate
unfolding insert_candidate
sort_candidates [] = []
sort_candidates (c ∷ cs) = insert_candidate c (sort_candidates cs)

abbrev pub decide_from : Option TransportChoice → List TransportCandidate → TransportDecision
decide_from current [] = no_route
decide_from none (c ∷ cs) = send (candidate_choice c)
decide_from (some now) (c ∷ cs) =
    let next = candidate_choice c in
    if not (any (same_link now.peer now.transport) (c ∷ cs))
    then send next
    else if equal now.peer next.peer && same_kind now.transport next.transport
    then keep next
    else switch now next

pub select_transport :
    MemberId
    → Option TransportChoice
    → List TransportCandidate
    → Option MemberId
    → Outcome TransportDecision
unfolding gather sort_candidates
select_transport local current candidates received_from = do
  reject (is_member received_from local) invalid_input
  eligible ← gather local received_from [] candidates
  ok (decide_from current (sort_candidates eligible))
