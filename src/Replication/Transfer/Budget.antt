-- ===== src/Replication/Transfer/Budget.antt =====
-- A plan is as long a beginning of the missing chunks as the budget allows.
use mesh_lab.Prelude.{
  ℕ, ◌+◌, ◌-◌, ◌≤◌, ◌<◌, ◌≡◌, refl, sym, ap, subst, ◌∙◌, inl, inr, List, [], ◌∷◌, ◌++◌, ltb, leb,
  ok, reject_inv, reject_then, arith, Bool-cases,
}
use mesh_lab.Durable.{Outcome, invalid_input, expired}
use mesh_lab.Object.{Manifest}
use mesh_lab.Replication.Transfer.{chunk_length, within, ill_formed, plan}

-- The bytes of the chunks.
abbrev pub total : Manifest → List ℕ → ℕ
total m [] = 0
total m (i ∷ rest) = chunk_length m i + total m rest

-- What is left is nothing, or begins with a chunk that does not fit.
abbrev pub Stops : Manifest → ℕ → List ℕ → Type 0
Stops m budget [] = Unit {0}
Stops m budget (i ∷ rest) = budget < chunk_length m i

spent : (b x y : ℕ) → b - x - y ≡ b - (x + y)
spent b x y = omega arith

within-beginning :
    (m : Manifest) (budget : ℕ) (missing : List ℕ)
    → (left : List ℕ) × (missing ≡ within m budget missing ++ left)
      × (total m (within m budget missing) ≤ budget)
      × Stops m (budget - total m (within m budget missing)) left
unfolding within
within-beginning m budget [] = ([], refl, omega arith, tt)
within-beginning m budget (i ∷ rest) = elim (Bool-cases (ltb budget (chunk_length m i))) [
  | inl over ↦ rw over (i ∷ rest, refl, omega arith, ground (arith, over))
  | inr fits ↦
      let (left, split, enough, stops) = within-beginning m (budget - chunk_length m i) rest in
      rw fits (
        left,
        ap (◌∷◌ i) split,
        ground (arith, fits, enough),
        subst (λ b. Stops m b left)
            (spent budget (chunk_length m i) (total m (within m (budget - chunk_length m i) rest)))
            stops,
      )
]

ok_inv : (a b : List ℕ) → ◌≡◌ {A = Outcome (List ℕ)} (ok a) (ok b) → a ≡ b
ok_inv a b e = ground (arith, e)

-- A plan for an object that has hops left is a beginning of the missing chunks that fits in the budget,
-- and the next missing chunk, if there is one, does not fit in what the plan leaves of it; the object
-- has not expired.
pub plan_inv :
    (m : Manifest) (missing : List ℕ) (now hops byte_budget : ℕ) (planned : List ℕ)
    → plan m missing now hops byte_budget ≡ ok planned
    → hops < m.hop_limit
    → (now < m.expires_at)
      × (left : List ℕ) × (missing ≡ planned ++ left)
      × (total m planned ≤ byte_budget)
      × Stops m (byte_budget - total m planned) left
unfolding plan
plan_inv m missing now hops byte_budget planned h hops_left =
    let rest = reject_then (ill_formed m missing now) invalid_input _ h in
    let alive = reject_inv (leb m.expires_at now) expired _ rest in
    let last = reject_then (leb m.expires_at now) expired _ rest in
    let made : planned ≡ within m byte_budget missing =
      sym (ok_inv _ planned last) ∙ ground (arith, hops_left) in
    let (left, split, enough, stops) = within-beginning m byte_budget missing in
    (
      ground (arith, alive),
      left,
      split ∙ ap (λ p. p ++ left) (sym made),
      rw made enough,
      subst (λ p. Stops m (byte_budget - total m p) left) (sym made) stops,
    )
