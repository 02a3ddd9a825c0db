-- ===== src/Prelude/OrdMap.antt =====
-- `BTreeMap`: the entries in ascending order of their keys.
use Prim.Native.Nat.{◌+◌, ◌≤◌, ◌<◌}
use mathlib.Core.Path.{◌≡◌, refl, ◌∙◌}
use mathlib.Core.Bool.{Bool, true, false}
use mathlib.Core.Option.{Option, none, some}
use mathlib.Core.List.{List, [], ◌∷◌}
use native.Mathlib.Omega.{arith}
use mesh_lab.Prelude.Tests.{if◌then◌else◌}
use mesh_lab.Prelude.Lists.{length}
use mesh_lab.Prelude.Ord.{Ord, equal, less, cmp_self, less_trans}

abbrev pub OrdMap : Type 0 → Type 0 → Type 0
OrdMap K V = List (K × V)

module _ {K V : Type 0} ⦃o : Ord K⦄ where
  unfoldable pub get : K → OrdMap K V → Option V
  get k [] = none
  get k ((j, v) ∷ m) = let rest = get k m in if equal k j then some v else rest

  unfoldable pub contains_key : K → OrdMap K V → Bool
  contains_key k [] = false
  contains_key k ((j, v) ∷ m) = let rest = contains_key k m in if equal k j then true else rest

  unfoldable pub insert : K → V → OrdMap K V → OrdMap K V
  insert k v [] = (k, v) ∷ []
  insert k v ((j, w) ∷ m) =
      let rest = insert k v m in
      if less k j then (k, v) ∷ (j, w) ∷ m else if equal k j then (k, v) ∷ m else (j, w) ∷ rest

  unfoldable pub remove : K → OrdMap K V → OrdMap K V
  remove k [] = []
  remove k ((j, w) ∷ m) = let rest = remove k m in if equal k j then rest else (j, w) ∷ rest

  unfoldable pub retain : (K → V → Bool) → OrdMap K V → OrdMap K V
  retain p [] = []
  retain p ((j, w) ∷ m) = let rest = retain p m in if p j w then (j, w) ∷ rest else rest

  pub get-insert :
      (j k : K) (v : V) (m : OrdMap K V)
      → get j (insert k v m) ≡ (if equal j k then some v else get j m)
  unfolding get insert
  get-insert j k v [] = refl
  get-insert j k v ((i, w) ∷ m) =
      ground (arith, get-insert j k v m, o.cmp_eq k i, o.cmp_eq j i, o.cmp_eq j k, cmp_self i)

  pub get-insert_self : (k : K) (v : V) (m : OrdMap K V) → get k (insert k v m) ≡ some v
  get-insert_self k v m = get-insert k k v m ∙ rw (cmp_self k)

  pub get-remove :
      (j k : K) (m : OrdMap K V) → get j (remove k m) ≡ (if equal j k then none else get j m)
  unfolding get remove
  get-remove j k [] = ground arith
  get-remove j k ((i, w) ∷ m) =
      ground (arith, get-remove j k m, o.cmp_eq k i, o.cmp_eq j i, o.cmp_eq j k, cmp_self i)

  -- An entry that passes the test stays.
  pub get-retain :
      (p : K → V → Bool) (k : K) (v : V) (m : OrdMap K V)
      → get k m ≡ some v
      → p k v ≡ true
      → get k (retain p m) ≡ some v
  unfolding get retain
  get-retain p k v [] h t = h
  get-retain p k v ((j, w) ∷ m) h t = ground (arith, h, t, o.cmp_eq k j, get-retain p k v m)

  pub contains_key-get :
      (k : K) (m : OrdMap K V)
      → contains_key k m ≡ (elim (get k m) [ none ↦ false | some _ ↦ true ])
  unfolding contains_key get
  contains_key-get k [] = refl
  contains_key-get k ((j, v) ∷ m) = ground (arith, contains_key-get k m)

  pub length-insert_le : (k : K) (v : V) (m : OrdMap K V) → length (insert k v m) ≤ length m + 1
  unfolding insert
  length-insert_le k v [] = omega arith
  length-insert_le k v ((j, w) ∷ m) = ground (arith, length-insert_le k v m)

  pub length-remove_le : (k : K) (m : OrdMap K V) → length (remove k m) ≤ length m
  unfolding remove
  length-remove_le k [] = omega arith
  length-remove_le k ((j, w) ∷ m) = ground (arith, length-remove_le k m)

  pub length-retain_le : (p : K → V → Bool) (m : OrdMap K V) → length (retain p m) ≤ length m
  unfolding retain
  length-retain_le p [] = omega arith
  length-retain_le p ((j, w) ∷ m) = ground (arith, length-retain_le p m)

  -- A key that is there was counted, and so leaves the map shorter when it is removed.
  pub length-remove_lt :
      (k : K) (m : OrdMap K V) {v : V} → get k m ≡ some v → length (remove k m) < length m
  unfolding remove get
  length-remove_lt k [] h = cc
  length-remove_lt k ((j, w) ∷ m) {v} h =
      ground (arith, length-remove_lt k m {v = v}, length-remove_le k m)

  pub length-remove_contained :
      (k : K) (m : OrdMap K V) → contains_key k m ≡ true → length (remove k m) < length m
  unfolding remove contains_key
  length-remove_contained k [] h = cc
  length-remove_contained k ((j, w) ∷ m) h =
      ground (arith, length-remove_contained k m, length-remove_le k m)

  -- Keys above a bound, and strictly ascending keys.
  abbrev pub Above : K → OrdMap K V → Type 0
  Above k [] = Unit {0}
  Above k ((j, v) ∷ m) = (less k j ≡ true) × Above k m

  abbrev pub IsSorted : OrdMap K V → Type 0
  IsSorted [] = Unit {0}
  IsSorted ((j, v) ∷ m) = Above j m × IsSorted m

  pub Above-trans : (i j : K) (m : OrdMap K V) → less i j ≡ true → Above j m → Above i m
  Above-trans i j [] h a = tt
  Above-trans i j ((k, v) ∷ m) h a = (less_trans i j k h a.0, Above-trans i j m h a.1)

  pub get-Above : (k : K) (m : OrdMap K V) → Above k m → get k m ≡ none
  unfolding get
  get-Above k [] a = refl
  get-Above k ((j, v) ∷ m) a = ground (arith, a.0, get-Above k m a.1)

  insert-Above :
      (i k : K) (v : V) (m : OrdMap K V) → less i k ≡ true → Above i m → Above i (insert k v m)
  unfolding insert
  insert-Above i k v [] h a = (h, tt)
  insert-Above i k v ((j, w) ∷ m) h a = ground (arith, h, a, insert-Above i k v m h a.1)

  remove-Above : (i k : K) (m : OrdMap K V) → Above i m → Above i (remove k m)
  unfolding remove
  remove-Above i k [] a = tt
  remove-Above i k ((j, w) ∷ m) a = ground (arith, a, remove-Above i k m a.1)

  retain-Above : (i : K) (p : K → V → Bool) (m : OrdMap K V) → Above i m → Above i (retain p m)
  unfolding retain
  retain-Above i p [] a = tt
  retain-Above i p ((j, w) ∷ m) a = ground (arith, a, retain-Above i p m a.1)

  pub insert-IsSorted : (k : K) (v : V) (m : OrdMap K V) → IsSorted m → IsSorted (insert k v m)
  unfolding insert
  insert-IsSorted k v [] s = (tt, tt)
  insert-IsSorted k v ((j, w) ∷ m) s = ground (
    arith,
    s,
    o.cmp_flip k j,
    o.cmp_eq k j,
    Above-trans k j m,
    insert-Above j k v m,
    insert-IsSorted k v m s.1,
  )

  pub remove-IsSorted : (k : K) (m : OrdMap K V) → IsSorted m → IsSorted (remove k m)
  unfolding remove
  remove-IsSorted k [] s = tt
  remove-IsSorted k ((j, w) ∷ m) s = ground (arith, remove-Above j k m s.0, remove-IsSorted k m s.1)

  pub retain-IsSorted : (p : K → V → Bool) (m : OrdMap K V) → IsSorted m → IsSorted (retain p m)
  unfolding retain
  retain-IsSorted p [] s = tt
  retain-IsSorted p ((j, w) ∷ m) s = ground (arith, retain-Above j p m s.0, retain-IsSorted p m s.1)

  -- To insert a key that is there replaces its value.
  pub length-insert_present :
      (k : K) (v : V) (m : OrdMap K V) {w : V}
      → IsSorted m
      → get k m ≡ some w
      → length (insert k v m) ≡ length m
  unfolding insert get
  length-insert_present k v [] s h = cc
  length-insert_present k v ((j, x) ∷ m) {w} s h =
      ground
        (arith, h, length-insert_present k v m {w = w} s.1, get-Above k m, Above-trans k j m, s)

  pub contains_key-insert :
      (j k : K) (v : V) (m : OrdMap K V)
      → contains_key j (insert k v m) ≡ (if equal j k then true else contains_key j m)
  contains_key-insert j k v m =
      ground (arith, contains_key-get j (insert k v m), contains_key-get j m, get-insert j k v m)
