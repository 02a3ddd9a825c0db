-- ===== src/Replication/Transport/Sorting.antt =====
-- The first of the sorted candidates is one that no other is below.
use mesh_lab.Prelude.{
  ◌≡◌, refl, sym, ap, ◌∙◌, subst, ◌≢◌, ◌⊎◌, inl, inr, Bool, true, false, not, ◌&&◌, List, [], ◌∷◌,
  all, Bool-cases, List-cases, arith,
}
use mathlib.Core.List.{Memᴰ}
use mesh_lab.Prelude.Ord.{less, is_lt, cmp_bytes-flip, cmp_bytes-eq, cmp_bytes_trans}
use mesh_lab.Durable.{member_ord}
use mesh_lab.Replication.Transport.{TransportCandidate, key_cmp, insert_candidate, sort_candidates}

abbrev pub below : TransportCandidate → TransportCandidate → Bool
below a b = is_lt (key_cmp a b)

below_asym : (a b : TransportCandidate) → below a b ≡ true → below b a ≡ false
below_asym a b h = ground (arith, h, cmp_bytes-flip a.peer.id b.peer.id)

not_below_trans :
    (a b c : TransportCandidate) → below a b ≡ false → below b c ≡ false → below a c ≡ false
not_below_trans a b c h k = ground (
  arith,
  h,
  k,
  cmp_bytes-flip a.peer.id b.peer.id,
  cmp_bytes-flip b.peer.id c.peer.id,
  cmp_bytes-flip a.peer.id c.peer.id,
  cmp_bytes-eq a.peer.id b.peer.id,
  cmp_bytes-eq b.peer.id c.peer.id,
  cmp_bytes_trans c.peer.id b.peer.id a.peer.id,
  cmp_bytes_trans a.peer.id c.peer.id b.peer.id,
)

-- No candidate of the list is better.
abbrev pub best : TransportCandidate → List TransportCandidate → Bool
best c = all (λ x. not (below x c))

best_weaken :
    (a b : TransportCandidate) (xs : List TransportCandidate)
    → below a b ≡ false
    → best a xs ≡ true
    → best b xs ≡ true
best_weaken a b [] h k = refl
best_weaken a b (x ∷ xs) h k = ground (arith, h, k, not_below_trans x a b, best_weaken a b xs h)

insert_some : (c : TransportCandidate) (xs : List TransportCandidate) → insert_candidate c xs ≢ []
unfolding insert_candidate
insert_some c [] h = cc
insert_some c (x ∷ xs) h = ground (arith, h)

pub sort_none : (xs : List TransportCandidate) → sort_candidates xs ≡ [] → xs ≡ []
unfolding sort_candidates
sort_none [] h = refl
sort_none (x ∷ xs) h = absurd (insert_some x (sort_candidates xs) h)

insert_head :
    (e h c : TransportCandidate) (t rest : List TransportCandidate)
    → insert_candidate e (h ∷ t) ≡ c ∷ rest
    → ((c ≡ h) × (below h e ≡ true)) ⊎ ((c ≡ e) × (below h e ≡ false))
unfolding insert_candidate
insert_head e h c t rest k = elim (Bool-cases (below h e)) [
  | inl less ↦ inl (ground (arith, k, less), less)
  | inr more ↦ inr (ground (arith, k, more), more)
]

below_self : (c : TransportCandidate) → below c c ≡ false
below_self c = ground (arith, cmp_bytes-flip c.peer.id c.peer.id)

pub both_true : (a b : Bool) → a ≡ true → b ≡ true → (a && b) ≡ true
both_true a b h k = ground (arith, h, k)

heads_by :
    {a c : TransportCandidate} {xs : List TransportCandidate}
    → a ≡ c
    → Memᴰ a xs × (best a xs ≡ true)
    → Memᴰ c xs × (best c xs ≡ true)
heads_by {xs = xs} e h = subst (λ x. Memᴰ x xs × (best x xs ≡ true)) e h

pub sort_head :
    (xs : List TransportCandidate) (c : TransportCandidate) (rest : List TransportCandidate)
    → sort_candidates xs ≡ c ∷ rest
    → Memᴰ c xs × (best c xs ≡ true)
unfolding sort_candidates
sort_head [] c rest h = cc
sort_head (e ∷ xs) c rest h = elim (List-cases (sort_candidates xs)) [
  | inl empty ↦
      let first : c ≡ e = ground (arith, h, empty) in
      let only = sort_none xs empty in
      rw (only, first) (Memᴰ.head refl, ground (arith, below_self e))
  | inr (m, t, shape) ↦
      let (there, good) = sort_head xs m t shape in
      elim (insert_head e m c t rest (ap (insert_candidate e) (sym shape) ∙ h)) [
        | inl (same, less) ↦
            heads_by (sym same) (Memᴰ.tail there, both_true _ _ (ap not (below_asym m e less)) good)
        | inr (same, more) ↦
            heads_by (sym same)
              (Memᴰ.head refl, both_true _ _ (ap not (below_self e)) (best_weaken m e xs more good))
      ]
]
