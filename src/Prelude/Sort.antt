-- ===== src/Prelude/Sort.antt =====
-- `sort` by the derived order, with what it promises: a permutation of the input that depends on no
-- order of the input.
use Prim.Native.Nat.{ℕ, zero, suc, ◌+◌, ◌<◌}
use mathlib.Core.Path.{◌≡◌, refl, sym, ap, subst, ◌∙◌}
use mathlib.Core.Bool.{Bool, true, false, not, ◌&&◌}
use mathlib.Core.Logic.{◌≢◌, inl, inr}
use mathlib.Core.Option.{Option, none, some}
use mathlib.Core.List.{List, [], ◌∷◌, Permᴰ}
use mathlib.Core.List.Permᴰ
use native.Mathlib.Omega.{arith}
use mesh_lab.Prelude.Tests.{Bool-cases, Option-cases, if◌then◌else◌}
use mesh_lab.Prelude.Lists.{length, select, get_or}
use mesh_lab.Prelude.Ord.{Ord, equal, less, less_trans, cmp_self}

pub Permᴰ_length {ℓ} : {A : Type ℓ} {xs ys : List A} → Permᴰ xs ys → length xs ≡ length ys
Permᴰ_length Permᴰ.nil = refl
Permᴰ_length (Permᴰ.cons e p) = ap suc (Permᴰ_length p)
Permᴰ_length (Permᴰ.swap e f) = refl
Permᴰ_length (Permᴰ.trans p q) = Permᴰ_length p ∙ Permᴰ_length q

abbrev pub after_one : Option ℕ → Option ℕ
after_one none = none
after_one (some i) = some (i + 1)

module _ {A : Type 0} ⦃o : Ord A⦄ where
  unfoldable pub insert_sorted : A → List A → List A
  insert_sorted x [] = x ∷ []
  insert_sorted x (y ∷ ys) =
      let rest = insert_sorted x ys in if less y x then y ∷ rest else x ∷ y ∷ ys

  unfoldable pub sort : List A → List A
  sort [] = []
  sort (x ∷ xs) = insert_sorted x (sort xs)

  insert_sorted-Permᴰ : (x : A) (ys : List A) → Permᴰ (x ∷ ys) (insert_sorted x ys)
  unfolding insert_sorted
  insert_sorted-Permᴰ x [] = Permᴰ.cons refl Permᴰ.nil
  insert_sorted-Permᴰ x (y ∷ ys) = elim (Bool-cases (less y x)) [
    | inl below ↦
        rw below (Permᴰ.trans (Permᴰ.swap refl refl) (Permᴰ.cons refl (insert_sorted-Permᴰ x ys)))
    | inr above ↦ rw above (Permᴰ.refl (x ∷ y ∷ ys))
  ]

  pub sort-Permᴰ : (xs : List A) → Permᴰ xs (sort xs)
  unfolding sort
  sort-Permᴰ [] = Permᴰ.nil
  sort-Permᴰ (x ∷ xs) =
      Permᴰ.trans (Permᴰ.cons refl (sort-Permᴰ xs)) (insert_sorted-Permᴰ x (sort xs))

  insert_sorted_comm :
      (x y : A) (zs : List A)
      → insert_sorted x (insert_sorted y zs) ≡ insert_sorted y (insert_sorted x zs)
  unfolding insert_sorted
  insert_sorted_comm x y [] = ground (arith, o.cmp_flip x y, o.cmp_eq x y, o.cmp_eq y x)
  insert_sorted_comm x y (z ∷ zs) = ground (
    arith,
    insert_sorted_comm x y zs,
    o.cmp_flip x y,
    o.cmp_eq x y,
    o.cmp_flip z x,
    o.cmp_flip z y,
    o.cmp_eq z x,
    o.cmp_eq z y,
    o.cmp_trans x y z,
    o.cmp_trans y x z,
    o.cmp_trans y z x,
    o.cmp_trans x z y,
    o.cmp_trans z x y,
    o.cmp_trans z y x,
  )

  -- The order in which the elements come does not matter.
  pub sort_order : (xs ys : List A) → Permᴰ xs ys → sort xs ≡ sort ys
  unfolding sort
  sort_order _ _ Permᴰ.nil = refl
  sort_order _ _ (Permᴰ.cons {a = a} {l₁ = l₁} {l₂ = l₂} e p) =
      ap (insert_sorted a) (sort_order l₁ l₂ p) ∙ ap (λ x. insert_sorted x (sort l₂)) e
  sort_order _ _ (Permᴰ.swap {a = a} {b = b} {a' = a'} {l = l} e f) =
      insert_sorted_comm a b (sort l)
      ∙ ap (λ x. insert_sorted x (insert_sorted a (sort l))) f
      ∙ ap (λ x. insert_sorted a' (insert_sorted x (sort l))) e
  sort_order _ _ (Permᴰ.trans p q) = sort_order _ _ p ∙ sort_order _ _ q

  pub length-sort : (xs : List A) → length (sort xs) ≡ length xs
  length-sort xs = Permᴰ_length (Permᴰ.symm (sort-Permᴰ xs))

  -- `windows(2).all(|pair| pair[0] < pair[1])`
  abbrev pub ascending : List A → Bool
  ascending [] = true
  ascending (x ∷ []) = true
  ascending (x ∷ y ∷ ys) = less x y && ascending (y ∷ ys)

  -- The index that `binary_search` finds in a list of ascending elements.
  abbrev pub position : A → List A → Option ℕ
  position x [] = none
  position x (y ∷ ys) = let rest = after_one (position x ys) in if equal x y then some 0 else rest

  ascending_tail : (x : A) (ys : List A) → ascending (x ∷ ys) ≡ true → ascending ys ≡ true
  ascending_tail x [] h = refl
  ascending_tail x (y ∷ ys) h = ground (arith, h)

  select_above :
      (x y : A) (ys : List A)
      → less x y ≡ true
      → ascending (y ∷ ys) ≡ true
      → select (λ z. not (equal z x)) (y ∷ ys) ≡ y ∷ ys
  select_above x y [] h a = ground (arith, h, o.cmp_flip x y)
  select_above x y (z ∷ zs) h a =
      ground (arith, h, a, o.cmp_flip x y, less_trans x y z h, select_above x z zs)

  select_first :
      (y : A) (ys : List A) → ascending (y ∷ ys) ≡ true → select (λ z. not (equal z y)) ys ≡ ys
  select_first y [] a = refl
  select_first y (z ∷ zs) a = select_above y z zs (ground (arith, a)) (ascending_tail y (z ∷ zs) a)

  -- One element taken out.
  pub select-Permᴰ :
      (x : A) (xs : List A)
      → ascending xs ≡ true
      → position x xs ≢ none
      → Permᴰ (x ∷ select (λ y. not (equal y x)) xs) xs
  select-Permᴰ x [] a h = absurd (h refl)
  select-Permᴰ x (y ∷ ys) a h = elim (Bool-cases (equal y x)) [
    | inl same ↦
        let e : y ≡ x = o.cmp_eq y x (ground (arith, same)) in
        rw same (
          Permᴰ.cons (sym e) (
            subst (λ zs. Permᴰ zs ys)
              (sym (select_first y ys a) ∙ ap (λ w. select (λ z. not (equal z w)) ys) e)
              (Permᴰ.refl ys)))
    | inr other ↦ rw other (
        Permᴰ.trans (Permᴰ.swap refl refl) (
          Permᴰ.cons refl (
            select-Permᴰ x ys (ascending_tail y ys a)
              (λ gone. h (ground (arith, gone, other, o.cmp_flip x y))))))
  ]

  -- What stands at the position that was found.
  pub position_inv :
      (x d : A) (i : ℕ) (xs : List A)
      → position x xs ≡ some i
      → (i < length xs) × (get_or xs i d ≡ x)
  position_inv x d i [] h = cc
  position_inv x d i (y ∷ ys) h = elim (Bool-cases (equal x y)) [
    | inl same ↦
        let first : i ≡ 0 = ground (arith, h, same) in
        rw first (omega arith, sym (o.cmp_eq x y (ground (arith, same))))
    | inr other ↦ elim (Option-cases (position x ys)) [
      | inl gone ↦ absurd (ground (arith, h, other, gone))
      | inr (j, found) ↦
          let next : i ≡ suc j = ground (arith, h, other, found) in
          let (below, there) = position_inv x d j ys found in rw next (omega (arith, below), there)
    ]
  ]

  less-get_or :
      (y d : A) (i : ℕ) (ys : List A)
      → ascending (y ∷ ys) ≡ true
      → i < length ys
      → less y (get_or ys i d) ≡ true
  less-get_or y d i [] a h = absurd (omega arith)
  less-get_or y d zero (z ∷ zs) a h = ground (arith, a)
  less-get_or y d (suc i) (z ∷ zs) a h =
      less_trans y z (get_or zs i d) (ground (arith, a))
        (less-get_or z d i zs (ascending_tail y (z ∷ zs) a) (omega (arith, h)))

  -- Each element of an ascending list stands at one position.
  pub position-get_or :
      (d : A) (i : ℕ) (xs : List A)
      → ascending xs ≡ true
      → i < length xs
      → position (get_or xs i d) xs ≡ some i
  position-get_or d i [] a h = absurd (omega arith)
  position-get_or d zero (y ∷ ys) a h = rw (cmp_self y)
  position-get_or d (suc i) (y ∷ ys) a h =
      let later = position-get_or d i ys (ascending_tail y ys a) (omega (arith, h)) in
      let apart : equal (get_or ys i d) y ≡ false =
        ground (arith, less-get_or y d i ys a (omega (arith, h)), o.cmp_flip y (get_or ys i d)) in
      rw (apart, later) (ap some (omega arith))
