-- ===== src/Prelude/Entries.antt =====
-- Entries of an ordered map that pass a test: counted, listed by key, and removed.
use Prim.Native.Nat.{ℕ, ◌+◌, ◌≤◌, ◌<◌}
use mathlib.Core.Path.{◌≡◌, refl, sym, ap, ◌∙◌}
use mathlib.Core.Bool.{Bool, true, false}
use mathlib.Core.Option.{Option, none, some}
use mathlib.Core.List.{List, [], ◌∷◌}
use mathlib.Core.Logic.{inl, inr}
use native.Mathlib.Omega.{arith}
use mesh_lab.Prelude.Tests.{Bool-cases, if◌then◌else◌}
use mesh_lab.Prelude.Lists.{length, any}
use mesh_lab.Prelude.Ord.{Ord, equal, cmp_self}
use mesh_lab.Prelude.OrdMap.{
  OrdMap, get, insert, remove, get-remove, IsSorted, Above, get-Above, Above-trans, remove-IsSorted,
  length-remove_le, length-remove_lt,
}

abbrev pub bit : Bool → ℕ
bit true = 1
bit false = 0

-- `Option::is_some_and`
abbrev pub is_some_and {ℓ} : {A : Type ℓ} → Option A → (A → Bool) → Bool
is_some_and none p = false
is_some_and (some a) p = p a

module _ {K V : Type 0} ⦃o : Ord K⦄ where
  -- `values().filter().count()`
  unfoldable pub count : (V → Bool) → OrdMap K V → ℕ
  count p [] = 0
  count p ((j, v) ∷ m) = bit (p v) + count p m

  -- The keys of the entries that pass the test, in order.
  unfoldable pub keys_where : (V → Bool) → OrdMap K V → List K
  keys_where p [] = []
  keys_where p ((j, v) ∷ m) = let rest = keys_where p m in if p v then j ∷ rest else rest

  unfoldable pub remove_all : List K → OrdMap K V → OrdMap K V
  remove_all [] m = m
  remove_all (k ∷ ks) m = remove_all ks (remove k m)

  -- An insertion replaces what was counted of its key.
  pub count-insert :
      (p : V → Bool) (k : K) (v : V) (m : OrdMap K V)
      → IsSorted m
      → count p (insert k v m) + bit (is_some_and (get k m) p) ≡ count p m + bit (p v)
  unfolding count insert get
  count-insert p k v [] s = omega arith
  count-insert p k v ((j, w) ∷ m) s =
      ground (arith, count-insert p k v m s.1, o.cmp_eq k j, get-Above k m, Above-trans k j m, s)

  pub count-remove_le : (p : V → Bool) (k : K) (m : OrdMap K V) → count p (remove k m) ≤ count p m
  unfolding count remove
  count-remove_le p k [] = omega arith
  count-remove_le p k ((j, w) ∷ m) = ground (arith, count-remove_le p k m)

  pub count-remove_all_le :
      (p : V → Bool) (ks : List K) (m : OrdMap K V) → count p (remove_all ks m) ≤ count p m
  unfolding remove_all
  count-remove_all_le p [] m = omega arith
  count-remove_all_le p (k ∷ ks) m =
      omega (arith, count-remove_all_le p ks (remove k m), count-remove_le p k m)

  pub length-remove_all_le : (ks : List K) (m : OrdMap K V) → length (remove_all ks m) ≤ length m
  unfolding remove_all
  length-remove_all_le [] m = omega arith
  length-remove_all_le (k ∷ ks) m =
      omega (arith, length-remove_all_le ks (remove k m), length-remove_le k m)

  pub remove_all-IsSorted : (ks : List K) (m : OrdMap K V) → IsSorted m → IsSorted (remove_all ks m)
  unfolding remove_all
  remove_all-IsSorted [] m s = s
  remove_all-IsSorted (k ∷ ks) m s = remove_all-IsSorted ks (remove k m) (remove-IsSorted k m s)

  pub get-remove_all :
      (j : K) (ks : List K) (m : OrdMap K V)
      → get j (remove_all ks m) ≡ (if any (equal j) ks then none else get j m)
  unfolding remove_all
  get-remove_all j [] m = refl
  get-remove_all j (k ∷ ks) m = ground (arith, get-remove_all j ks (remove k m), get-remove j k m)

  -- A listed key that is there makes the map shorter.
  pub length-remove_all_lt :
      (k : K) (ks : List K) (m : OrdMap K V) {v : V}
      → any (equal k) ks ≡ true
      → get k m ≡ some v
      → length (remove_all ks m) < length m
  unfolding remove_all
  length-remove_all_lt k [] m h e = cc
  length-remove_all_lt k (j ∷ ks) m {v} h e = elim (Bool-cases (equal k j)) [
    | inl same ↦
        let there : get j m ≡ some v =
          ap (λ i. get i m) (sym (o.cmp_eq k j (ground (arith, same)))) ∙ e in
        omega (arith, length-remove_all_le ks (remove j m), length-remove_lt j m there)
    | inr other ↦
        let still : get k (remove j m) ≡ some v = get-remove k j m ∙ rw (other, e) in
        omega (
          arith,
          length-remove_all_lt k ks (remove j m) (ground (arith, h, other)) still,
          length-remove_le j m,
        )
  ]

  none-Above :
      (p : V → Bool) (k : K) (m : OrdMap K V) → Above k m → any (equal k) (keys_where p m) ≡ false
  unfolding keys_where
  none-Above p k [] a = refl
  none-Above p k ((j, w) ∷ m) a = ground (arith, a.0, none-Above p k m a.1)

  -- A key is listed exactly if its entry passes the test.
  pub any-keys_where :
      (p : V → Bool) (k : K) (m : OrdMap K V)
      → IsSorted m
      → any (equal k) (keys_where p m) ≡ is_some_and (get k m) p
  unfolding keys_where get
  any-keys_where p k [] s = refl
  any-keys_where p k ((j, w) ∷ m) s =
      ground (arith, o.cmp_eq k j, cmp_self j, none-Above p j m s.0, any-keys_where p k m s.1)

  -- Every value passes the test.
  abbrev pub Each : (V → Bool) → OrdMap K V → Type 0
  Each p [] = Unit {0}
  Each p ((j, v) ∷ m) = (p v ≡ true) × Each p m

  pub insert-Each :
      (p : V → Bool) (k : K) (v : V) (m : OrdMap K V)
      → p v ≡ true
      → Each p m
      → Each p (insert k v m)
  unfolding insert
  insert-Each p k v [] h e = (h, tt)
  insert-Each p k v ((j, w) ∷ m) h e = ground (arith, h, e, insert-Each p k v m h e.1)

  remove-Each : (p : V → Bool) (k : K) (m : OrdMap K V) → Each p m → Each p (remove k m)
  unfolding remove
  remove-Each p k [] e = tt
  remove-Each p k ((j, w) ∷ m) e = ground (arith, e, remove-Each p k m e.1)

  pub remove_all-Each :
      (p : V → Bool) (ks : List K) (m : OrdMap K V) → Each p m → Each p (remove_all ks m)
  unfolding remove_all
  remove_all-Each p [] m e = e
  remove_all-Each p (k ∷ ks) m e = remove_all-Each p ks (remove k m) (remove-Each p k m e)

  pub Each-get :
      (p : V → Bool) (k : K) (v : V) (m : OrdMap K V) → Each p m → get k m ≡ some v → p v ≡ true
  unfolding get
  Each-get p k v [] e h = cc
  Each-get p k v ((j, w) ∷ m) e h = ground (arith, e, h, Each-get p k v m e.1)

  pub Each-weaken :
      (p q : V → Bool) (m : OrdMap K V) → ((v : V) → p v ≡ true → q v ≡ true) → Each p m → Each q m
  Each-weaken p q [] f e = tt
  Each-weaken p q ((j, w) ∷ m) f e = (f w e.0, Each-weaken p q m f e.1)

  -- A test that implies another, on the values that are there, counts no more.
  pub count_le :
      (p q r : V → Bool) (m : OrdMap K V)
      → ((v : V) → r v ≡ true → p v ≡ true → q v ≡ true)
      → Each r m
      → count p m ≤ count q m
  unfolding count
  count_le p q r [] f e = omega arith
  count_le p q r ((j, w) ∷ m) f e = ground (arith, f w e.0, count_le p q r m f e.1)
