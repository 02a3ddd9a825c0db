-- ===== src/Prelude/Find.antt =====
-- `iter().find()` on the entries of an ordered map.
use mathlib.Core.Path.{◌≡◌, refl, ap}
use mathlib.Core.Bool.{Bool, true, false}
use mathlib.Core.Logic.{inl, inr}
use mathlib.Core.Option.{Option, none, some}
use mathlib.Core.List.{[], ◌∷◌}
use native.Mathlib.Omega.{arith}
use mesh_lab.Prelude.Tests.{Bool-cases, if◌then◌else◌}
use mesh_lab.Prelude.Ord.{Ord, cmp_self}
use mesh_lab.Prelude.OrdMap.{OrdMap, get, IsSorted, get-Above}

module _ {K V : Type 0} ⦃o : Ord K⦄ where
  -- The key of the first entry that passes the test.
  unfoldable pub find_key : (V → Bool) → OrdMap K V → Option K
  find_key p [] = none
  find_key p ((j, v) ∷ m) = let rest = find_key p m in if p v then some j else rest

  pub find_key_inv :
      (p : V → Bool) (k : K) (m : OrdMap K V)
      → IsSorted m
      → find_key p m ≡ some k
      → (v : V) × (get k m ≡ some v) × (p v ≡ true)
  unfolding find_key get
  find_key_inv p k [] s h = cc
  find_key_inv p k ((j, v) ∷ m) s h = elim (Bool-cases (p v)) [
    | inl t ↦ (v, ground (arith, h, t, cmp_self j), t)
    | inr f ↦
        let (w, there, good) = find_key_inv p k m s.1 (ground (arith, h, f)) in
        (w, ground (arith, there, get-Above j m s.0, o.cmp_eq k j), good)
  ]

  -- Where no entry passes the test, none is found.
  pub find_key-none :
      (p : V → Bool) (m : OrdMap K V)
      → IsSorted m
      → ((k : K) (v : V) → get k m ≡ some v → p v ≡ false)
      → find_key p m ≡ none
  unfolding find_key get
  find_key-none p [] s f = refl
  find_key-none p ((j, v) ∷ m) s f =
      let first : p v ≡ false = f j v (ground (arith, cmp_self j)) in
      let later =
        find_key-none p m s.1
          (λ k w there. f k w (ground (arith, there, get-Above j m s.0, o.cmp_eq k j))) in
      rw first later

  -- The only entry that passes the test is found.
  pub find_key_only :
      (p : V → Bool) (k : K) (v : V) (m : OrdMap K V)
      → IsSorted m
      → get k m ≡ some v
      → p v ≡ true
      → ((j : K) (w : V) → get j m ≡ some w → p w ≡ true → j ≡ k)
      → find_key p m ≡ some k
  unfolding find_key get
  find_key_only p k v [] s there good alone = cc
  find_key_only p k v ((j, x) ∷ m) s there good alone = elim (Bool-cases (p x)) [
    | inl t ↦ rw t (ap some (alone j x (ground (arith, cmp_self j)) t))
    | inr f ↦ rw f (
        find_key_only p k v m s.1 (ground (arith, there, good, f)) good
          (λ i w here fine. alone i w (ground (arith, here, get-Above j m s.0, o.cmp_eq i j)) fine))
  ]
