-- ===== src/Replication/Audience/Partition.antt =====
-- The audiences are a partition of the other members, the same on every phone.
use mesh_lab.Prelude.{
  ℕ, zero, suc, ◌*◌, ◌≤◌, ◌≡◌, ◌≢◌, refl, sym, subst, false, ◌||◌, List, [], ◌∷◌, ◌++◌, Option,
  none, length, drop, ltb, ◌==◌, ok, reject_inv, reject_then, All, arith, take-append-drop,
  length-take, length-drop,
}
use mathlib.Core.List.{Permᴰ}
use mathlib.Core.List.Permᴰ
use mesh_lab.Prelude.Sort.{sort, sort-Permᴰ, sort_order, length-sort, select-Permᴰ, Permᴰ_length}
use mesh_lab.Durable.{Outcome, MemberId, member_ord, invalid_input, max_group_members, max_targets}
use mesh_lab.Replication.Audience.{chunks, others, unfit, is_none, broadcast_audiences}

-- All chunks one after the other.
abbrev pub concat {ℓ} : {A : Type ℓ} → List (List A) → List A
concat [] = []
concat (xs ∷ xss) = xs ++ concat xss

module _ {ℓ} {A : Type ℓ} where
  -- As many steps as elements are enough.
  concat-chunks :
      (steps size : ℕ) (xs : List A)
      → 1 ≤ size
      → length xs ≤ steps
      → concat (chunks steps size xs) ≡ xs
  unfolding chunks
  concat-chunks zero size [] h k = refl
  concat-chunks zero size (x ∷ xs) h k = absurd (omega arith)
  concat-chunks (suc steps) size [] h k = refl
  concat-chunks (suc steps) size (x ∷ xs) h k =
      rw
        (concat-chunks steps size (drop size (x ∷ xs)) h (omega (arith, length-drop size (x ∷ xs))))
        (take-append-drop size (x ∷ xs))

  chunks-sizes :
      (steps size : ℕ) (xs : List A)
      → 1 ≤ size
      → All (λ chunk. (1 ≤ length chunk) × (length chunk ≤ size)) (chunks steps size xs)
  unfolding chunks
  chunks-sizes zero size xs h = tt
  chunks-sizes (suc steps) size [] h = tt
  chunks-sizes (suc steps) size (x ∷ xs) h =
      let n = length-take size (x ∷ xs) in
      ((omega (arith, n), omega (arith, n)), chunks-sizes steps size (drop size (x ∷ xs)) h)

  -- All but the last chunk are full.
  length-chunks :
      (steps size k : ℕ) (xs : List A)
      → 1 ≤ size
      → length xs ≤ k * size
      → length (chunks steps size xs) ≤ k
  unfolding chunks
  length-chunks zero size k xs h b = omega arith
  length-chunks (suc steps) size k [] h b = omega arith
  length-chunks (suc steps) size zero (x ∷ xs) h b = absurd (omega arith)
  length-chunks (suc steps) size (suc k) (x ∷ xs) h b = omega (
    arith,
    length-chunks steps size k (drop size (x ∷ xs)) h (omega (arith, b, length-drop size (x ∷ xs))),
  )

no_position : {o : Option ℕ} → is_none o ≡ false → o ≢ none
no_position h e = ground (arith, h, e)

-- What passed the checks.
broadcast_audiences-parts :
    (local : MemberId) (members : List MemberId) (groups : List (List MemberId))
    → broadcast_audiences local members ≡ ok groups
    → (length members ≤ max_group_members)
      × (unfit local (sort members) ≡ false)
      × (groups ≡ chunks (length (sort members)) max_targets (others local (sort members)))
unfolding broadcast_audiences
broadcast_audiences-parts local members groups h =
    let sized =
      reject_inv (length members == 0 || ltb max_group_members (length members)) invalid_input _
        h in
    let rest =
      reject_then (length members == 0 || ltb max_group_members (length members)) invalid_input _
        h in
    let fit = reject_inv (unfit local (sort members)) invalid_input _ rest in
    let last = reject_then (unfit local (sort members)) invalid_input _ rest in
    (ground (arith, sized), fit, sym (ok_inv last))
  where
    ok_inv :
        {a b : List (List MemberId)}
        → ◌≡◌ {A = Outcome (List (List MemberId))} (ok a) (ok b)
        → a ≡ b
    ok_inv e = ground (arith, e)

-- The audiences are at most five groups of one to ten members; together with the sender they hold
-- each member of the roster, and as often as the roster does.
pub broadcast_audiences_inv :
    (local : MemberId) (members : List MemberId) (groups : List (List MemberId))
    → broadcast_audiences local members ≡ ok groups
    → Permᴰ (local ∷ concat groups) members
      × All (λ group. (1 ≤ length group) × (length group ≤ 10)) groups
      × (length groups ≤ 5)
broadcast_audiences_inv local members groups h =
    let (sized, fit, shape) = broadcast_audiences-parts local members groups h in
    let roster = sort members in
    let rest = others local roster in
    let taken =
      select-Permᴰ local roster (ground (arith, fit)) (no_position (ground (arith, fit))) in
    let counted = length-sort members in
    let total = Permᴰ_length taken in
    let whole : concat (chunks (length roster) 10 rest) ≡ rest =
      concat-chunks (length roster) 10 rest (omega arith) (omega (arith, total)) in
    rw shape (
      subst (λ xs. Permᴰ (local ∷ xs) members) (sym whole)
          (Permᴰ.trans taken (Permᴰ.symm (sort-Permᴰ members))),
      chunks-sizes (length roster) 10 rest (omega arith),
      length-chunks (length roster) 10 5 rest (omega arith) (omega (arith, sized, total, counted)),
    )

-- Every phone that holds the same roster, in whatever order, cuts the same audiences for a sender, or
-- refuses it with the same error.
pub broadcast_audiences_order :
    (local : MemberId) (xs ys : List MemberId)
    → Permᴰ xs ys
    → broadcast_audiences local xs ≡ broadcast_audiences local ys
unfolding broadcast_audiences
broadcast_audiences_order local xs ys p = rw (sort_order xs ys p, Permᴰ_length p)
