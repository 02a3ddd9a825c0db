-- ===== src/Replication/Neighbors/Symmetry.antt =====
-- The overlay is a graph: the phones at both ends of an edge plan it.
use mesh_lab.Prelude.{
  ℕ, ◌+◌, ◌-◌, ◌/◌, ◌%◌, ◌<◌, ◌≡◌, refl, sym, ap, ◌∙◌, Bool, true, false, not, ◌||◌, List, [], ◌∷◌,
  Option, some, length, get_or, any, ltb, ◌==◌, ok, ok_or, >>=-eq-ok, ok_or-eq-ok, reject_inv,
  reject_then, arith, if◌then◌else◌,
}
use mathlib.Core.List.{Permᴰ}
use native.Mathlib.Nat.{mod-add-mod, add-mod_right, mod-eq_of_lt, mod-lt}
use mesh_lab.Prelude.Ord.{equal, equal_iff}
use mesh_lab.Prelude.Sort.{
  sort, ascending, position, position_inv, position-get_or, sort_order, Permᴰ_length,
}
use mesh_lab.Durable.{MemberId, member_ord, invalid_input, max_group_members}
use mesh_lab.Replication.Neighbors.{NeighborPlan, around, wifi_of, bluetooth_of, neighbor_plan}

-- To go on by the rest of the way round leads back.
turn_back : (i m n c : ℕ) → i < c → m + n ≡ c → ((i + m) % c + n) % c ≡ i
turn_back i m n c h e =
    let whole : i + m + n ≡ i + c = omega (arith, e) in
    mod-add-mod (i + m) c n ∙ ap (λ x. x % c) whole ∙ add-mod_right i c ∙ mod-eq_of_lt h

-- The plan of a phone at its position in the roster.
plan_at :
    (local : MemberId) (members : List MemberId) (p : NeighborPlan)
    → neighbor_plan local members ≡ ok p
    → (i : ℕ) × (position local (sort members) ≡ some i)
      × (ascending (sort members) ≡ true)
      × (p.wifi_aware ≡ wifi_of (sort members) local i)
      × (p.bluetooth_fallback ≡ bluetooth_of (sort members) local i)
unfolding neighbor_plan
plan_at local members p h =
    let rest =
      reject_then (length members == 0 || ltb max_group_members (length members)) invalid_input _
        h in
    let fit = reject_inv (not (ascending (sort members))) invalid_input _ rest in
    let last = reject_then (not (ascending (sort members))) invalid_input _ rest in
    let (i, found, made) = >>=-eq-ok (ok_or (position local (sort members)) invalid_input) _ last in
    (
      i,
      ok_or-eq-ok (position local (sort members)) invalid_input i found,
      ground (arith, fit),
      ground (arith, made),
      ground (arith, made),
    )

-- The neighbours before and after, or only the one after among two.
either_side :
    (a b : MemberId) (one two : Bool) (before after before' after' : MemberId)
    → (after ≡ b → before' ≡ a)
    → (before ≡ b → after' ≡ a)
    → (two ≡ true → after ≡ b → after' ≡ a)
    → any (equal b) (if one then [] else if two then after ∷ [] else before ∷ after ∷ []) ≡ true
    → any (equal a) (if one then [] else if two then after' ∷ [] else before' ∷ after' ∷ []) ≡ true
either_side a b true two before after before' after' f g k h = h
either_side a b false true before after before' after' f g k h =
    ground (arith, h, k refl, member_ord.cmp_eq b after, (equal_iff a after').1)
either_side a b false false before after before' after' f g k h = ground (
  arith,
  h,
  f,
  g,
  member_ord.cmp_eq b after,
  member_ord.cmp_eq b before,
  (equal_iff a after').1,
  (equal_iff a before').1,
)

module _ (roster : List MemberId) (a b : MemberId) (i j : ℕ) (up : ascending roster ≡ true)
    (at_i : position a roster ≡ some i) (at_j : position b roster ≡ some j) where
  some_inv : {x y : ℕ} → ◌≡◌ {A = Option ℕ} (some x) (some y) → x ≡ y
  some_inv h = ground (arith, h)

  -- Two positions apart by `m` in one direction are apart by the rest in the other.
  around_back :
      (m n : ℕ) → m + n ≡ length roster → around roster a (i + m) ≡ b → around roster b (j + n) ≡ a
  around_back m n e h =
      let c = length roster in
      let (low, here) = position_inv a b i roster at_i in
      let inside : (i + m) % c < c = mod-lt (i + m) (omega (arith, low)) in
      let there : position b roster ≡ some ((i + m) % c) =
        ap (λ x. position x roster) (sym h) ∙ position-get_or a ((i + m) % c) roster up inside in
      let same : j ≡ (i + m) % c = some_inv (sym at_j ∙ there) in
      ap (λ k. get_or roster ((k + n) % c) b) same
      ∙ ap (λ k. get_or roster k b) (turn_back i m n c low e)
      ∙ here

  bluetooth_back : bluetooth_of roster a i ≡ some b → bluetooth_of roster b j ≡ some a
  bluetooth_back h = ground (arith, h, around_back (length roster / 2) (length roster / 2))

  wifi_back : any (equal b) (wifi_of roster a i) ≡ true → any (equal a) (wifi_of roster b j) ≡ true
  wifi_back h =
      let c = length roster in
      let (low, _) = position_inv a b i roster at_i in
      let left : i + c - 1 ≡ i + (c - 1) = omega (arith, low) in
      let left' : j + c - 1 ≡ j + (c - 1) = omega (arith, low) in
      either_side a b (c == 1) (c == 2) (around roster a (i + c - 1)) (around roster a (i + 1))
        (around roster b (j + c - 1)) (around roster b (j + 1))
        (λ e. ap (around roster b) left' ∙ around_back 1 (c - 1) (omega (arith, low)) e)
        (λ e. around_back (c - 1) 1 (omega (arith, low)) (ap (around roster a) (sym left) ∙ e))
        (λ two e. around_back 1 1 (ground (arith, two)) e) h

-- If one phone plans another as its Bluetooth edge, the other plans the first.
pub neighbor_plan-bluetooth :
    (a b : MemberId) (members : List MemberId) (p q : NeighborPlan)
    → neighbor_plan a members ≡ ok p
    → neighbor_plan b members ≡ ok q
    → p.bluetooth_fallback ≡ some b
    → q.bluetooth_fallback ≡ some a
neighbor_plan-bluetooth a b members p q hp hq h =
    let (i, at_i, up, _, bp) = plan_at a members p hp in
    let (j, at_j, _, _, bq) = plan_at b members q hq in
    bq ∙ bluetooth_back (sort members) a b i j up at_i at_j (sym bp ∙ h)

-- If one phone plans another as a Wi-Fi Aware neighbour, the other plans the first.
pub neighbor_plan-wifi :
    (a b : MemberId) (members : List MemberId) (p q : NeighborPlan)
    → neighbor_plan a members ≡ ok p
    → neighbor_plan b members ≡ ok q
    → any (equal b) p.wifi_aware ≡ true
    → any (equal a) q.wifi_aware ≡ true
neighbor_plan-wifi a b members p q hp hq h =
    let (i, at_i, up, wp, _) = plan_at a members p hp in
    let (j, at_j, _, wq, _) = plan_at b members q hq in
    ap (any (equal a)) wq
    ∙ wifi_back (sort members) a b i j up at_i at_j (ap (any (equal b)) (sym wp) ∙ h)

-- Every phone that holds the same roster, in whatever order, derives the same plan for a member.
pub neighbor_plan_order :
    (local : MemberId) (xs ys : List MemberId)
    → Permᴰ xs ys
    → neighbor_plan local xs ≡ neighbor_plan local ys
unfolding neighbor_plan
neighbor_plan_order local xs ys p = rw (sort_order xs ys p, Permᴰ_length p)
