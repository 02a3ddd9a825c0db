-- ===== src/Codec/Each.antt =====
-- The loop `for _ in 0..n { items.push(read()?) }`, and the loop that writes such a list.
use mesh_lab.Prelude.{
  ℕ, zero, suc, ◌≡◌, refl, sym, ap, ◌∙◌, List, [], ◌∷◌, ◌++◌, length, ok, ◌>>=◌, All, arith,
  append_assoc, append-nil, length-append, >>=-eq-ok, ok-subst,
}
use mesh_lab.Durable.{Outcome, IsByte}
use mesh_lab.Codec.{Reader, Writer, push_all}
use mesh_lab.Codec.Head.{remaining, advance, remaining-advance_append}
use mesh_lab.Codec.Canonical.{Reads}
use mesh_lab.Codec.Decodes.{Decodes}
use mesh_lab.Codec.Inverse.{Reads-then, Reads-bytes, Onward, then_of}

module _ {ℓ} {A : Type ℓ} where
  unfoldable pub read_each :
      (Reader → Outcome (A × Reader)) → ℕ → Reader → Outcome (List A × Reader)
  read_each p zero r = ok ([], r)
  read_each p (suc n) r = do (a, r₁) ← p r; (xs, r₂) ← read_each p n r₁; ok (a ∷ xs, r₂)

  unfoldable pub write_each : (A → Writer → Writer) → List A → Writer → Writer
  write_each put [] w = w
  write_each put (a ∷ xs) w = write_each put xs (put a w)

  -- What the items are written xs, one after another.
  abbrev pub prints : (A → List ℕ) → List A → List ℕ
  prints print [] = []
  prints print (a ∷ xs) = print a ++ prints print xs

  pub write_each-prints :
      (put : A → Writer → Writer) (print : A → List ℕ)
      → ((a : A) (w : Writer) → put a w ≡ push_all (print a) w)
      → (xs : List A) (w : Writer) → write_each put xs w ≡ push_all (prints print xs) w
  unfolding write_each
  write_each-prints put print step [] w = ap (λ o. record { out = o }) (sym (append-nil w.out))
  write_each-prints put print step (a ∷ xs) w =
      write_each-prints put print step xs (put a w)
      ∙ rw (step a w)
          (ap (λ o. record { out = o }) (append_assoc w.out (print a) (prints print xs)))

  pub read_each-Decodes :
      (p : Reader → Outcome (A × Reader)) (print : A → List ℕ) (xs : List A)
      → All (λ a. Decodes p (print a) a) xs
      → Decodes (read_each p (length xs)) (prints print xs) xs
  unfolding read_each
  read_each-Decodes p print [] ds = record { reads = λ r rest fits h. ground arith }
  read_each-Decodes p print (a ∷ xs) (d, ds) =
      let more = read_each-Decodes p print xs ds in
      record {
        reads = λ r rest fits h.
            let split = h ∙ append_assoc (print a) (prints print xs) rest in
            let next = remaining-advance_append r (print a) (prints print xs ++ rest) split in
            rw
              (
                d.reads r (prints print xs ++ rest) fits split,
                more.reads (advance r (length (print a))) rest fits next,
                length-append (print a) (prints print xs),
              )
              (ground arith);
      }

module _ {ℓ κ} {A : Type ℓ} (p : Reader → Outcome (A × Reader)) (print : A → List ℕ)
    (Fits : A → Type κ)
    (inverse : (a : A) (r r' : Reader)
      → All IsByte (remaining r)
      → p r ≡ ok (a, r')
      → Fits a × Reads r r' (print a)) where
  pub read_each_inv :
      (n : ℕ) (xs : List A) (r r' : Reader)
      → All IsByte (remaining r)
      → read_each p n r ≡ ok (xs, r')
      → ((length xs ≡ n) × All Fits xs) × Reads r r' (prints print xs)
  unfolding read_each
  read_each_inv zero xs r r' bytes h =
      ok-subst (λ t. ((length t.0 ≡ 0) × All Fits t.0) × Reads r t.1 (prints print t.0)) ([], r)
        (xs, r') h ((refl, tt), record { taken = refl; moved = ground arith })
  read_each_inv (suc n) xs r r' bytes h =
      let ((a, r₁), got, h₁) = >>=-eq-ok (p r) _ h in
      let (fits, first) = inverse a r r₁ bytes got in
      let (_, rest) = Reads-bytes r r₁ (print a) first bytes in
      let ((bs, r₂), gathered, last) = >>=-eq-ok (read_each p n r₁) _ h₁ in
      let ((sized, all), others) = read_each_inv n bs r₁ r₂ rest gathered in
      ok-subst (λ t. ((length t.0 ≡ suc n) × All Fits t.0) × Reads r t.1 (prints print t.0))
        (a ∷ bs, r₂) (xs, r') last
        ((ap suc sized, (fits, all)), Reads-then r r₁ r₂ (print a) (prints print bs) first others)

  -- A chain that succeeded went on behind such a loop.
  pub read_each_then {ι γ} :
      {C : Type ι} {G : Type γ} (n : ℕ) (next : List A × Reader → Outcome C) (r : Reader) (c : C)
      → All IsByte (remaining r)
      → (read_each p n r >>= next) ≡ ok c
      → ((xs : List A) (r' : Reader)
          → Onward (prints print) (λ bs. (length bs ≡ n) × All Fits bs) next r c xs r'
          → G)
      → G
  read_each_then n =
      then_of (read_each p n) (prints print) (λ xs. (length xs ≡ n) × All Fits xs) (read_each_inv n)
