-- ===== src/Session/Packets/Window.antt =====
-- The replay window against the plain list of the packets that were accepted.
use mesh_lab.Prelude.{
  ℕ, ◌+◌, ◌-◌, ◌*◌, ◌%◌, ◌^◌, ◌≤◌, ◌<◌, ◌≡◌, refl, ap, bit_and, bit_or, Bool, true, false, not,
  ◌&&◌, List, [], ◌∷◌, Option, none, some, any, all, ltb, leb, ◌==◌, if◌then◌else◌, ok, reject,
  arith, Bool-cases, inl, inr, ==_iff, ◌∙◌, subst,
}
use mesh_lab.Prelude.Digits.{
  digit, digit-bit_or, digit-power, digit-mul, digit-mod, bit_and-power, digit_bound, two_power_pos,
}
use mesh_lab.Session.Packets.{
  Replay, replay, default_replay, check, check_from, accept, accept_from, spent, shifted,
}

abbrev pub has : ℕ → List ℕ → Bool
has n ns = any (λ m. m == n) ns

-- No packet comes twice, and none 64 or more below another one.
abbrev pub fresh : ℕ → List ℕ → Bool
fresh n ns = not (has n ns) && all (λ m. ltb m (n + 64)) ns

-- The windows of a session, with the packets that it accepted, the last one first.
pub data Window : List ℕ → Replay → Type 0 where
  opens : Window [] default_replay
  accepts :
      (n : ℕ) {ns : List ℕ} {r : Replay}
      → Window ns r
      → check n r ≡ ok tt
      → Window (n ∷ ns) (accept n r)

all_below :
    (k h : ℕ) (ns : List ℕ)
    → ((m : ℕ) → has m ns ≡ true → m ≤ h)
    → h < k
    → all (λ m. ltb m k) ns ≡ true
all_below k h [] bound lt = refl
all_below k h (m ∷ ns) bound lt =
    ground (arith, bound m, all_below k h ns (λ j hj. bound j (ground (arith, hj))) lt)

not_all_below : (k h : ℕ) (ns : List ℕ) → has h ns ≡ true → k ≤ h → all (λ m. ltb m k) ns ≡ false
not_all_below k h [] there le = cc
not_all_below k h (m ∷ ns) there le = ground (arith, not_all_below k h ns)

abbrev one_if : Bool → ℕ
one_if b = if b then 1 else 0

record Tracks (ns : List ℕ) (high bits : ℕ) : Type 0 where
  there : has high ns ≡ true
  bound : (m : ℕ) → has m ns ≡ true → m ≤ high
  kept : (d : ℕ) → d < 64 → d ≤ high → digit d bits ≡ one_if (has (high - d) ns)

spent-digit : (delta bits : ℕ) → delta < 64 → spent delta bits ≡ (digit delta bits == 1)
spent-digit delta bits lt = elim (Bool-cases (digit delta bits == 1)) [
  | inl e ↦
      let one : digit delta bits ≡ 1 = (==_iff (digit delta bits) 1).0 e in
      let masked : bit_and bits (2 ^ delta) ≡ 1 * 2 ^ delta =
        bit_and-power delta bits ∙ ap (λ x. x * 2 ^ delta) one in
      rw (masked, e) (ground (arith, two_power_pos delta))
  | inr e ↦
      let none_set : digit delta bits ≡ 0 = ground (arith, digit_bound delta bits, e) in
      let masked : bit_and bits (2 ^ delta) ≡ 0 * 2 ^ delta =
        bit_and-power delta bits ∙ ap (λ x. x * 2 ^ delta) none_set in
      rw (masked, e) (ground arith)
]

digit-shifted :
    (d k bits : ℕ)
    → 0 < k
    → d < 64
    → digit d (shifted k bits) ≡ (if d == 0 then 1 else if ltb d k then 0 else digit (d - k) bits)
digit-shifted d k bits pos lt = elim (Bool-cases (leb 64 k)) [
  | inl far ↦ rw far (ground (arith, digit-power d 0, far))
  | inr near ↦
      rw
        (
          near,
          digit-bit_or d (bits * 2 ^ k % 2 ^ 64) 1,
          digit-mod d 64 (bits * 2 ^ k),
          digit-mul d k bits,
          digit-power d 0,
        )
        (ground (arith, digit_bound (d - k) bits))
]

Tracks-first : (n : ℕ) → Tracks (n ∷ []) n 1
Tracks-first n = record {
  there = ground arith;
  bound = λ m h. ground (arith, h);
  kept = λ d lt le. ground (arith, digit-power d 0);
}

Tracks-later :
    (n high bits : ℕ) (ns : List ℕ)
    → high < n
    → Tracks ns high bits
    → Tracks (n ∷ ns) n (shifted (n - high) bits)
Tracks-later n high bits ns lt t = record {
  there = ground arith;
  bound = λ m h. ground (arith, t.bound m, h);
  kept = λ d small le.
      let e = digit-shifted d (n - high) bits (omega arith) small in
      elim (Bool-cases (ltb d (n - high))) [
        | inl new ↦ ground (arith, e, new, t.bound (n - d))
        | inr old ↦
            let back : high - (d - (n - high)) ≡ n - d = ground (arith, old) in
            let k =
              subst (λ j. digit (d - (n - high)) bits ≡ one_if (has j ns)) back
                (t.kept (d - (n - high)) (omega arith) (ground (arith, old))) in
            ground (arith, e, old, k)
      ];
}

Tracks-earlier :
    (n high bits : ℕ) (ns : List ℕ)
    → n ≤ high
    → high - n < 64
    → Tracks ns high bits
    → Tracks (n ∷ ns) high (bit_or bits (2 ^ (high - n)))
Tracks-earlier n high bits ns le near t = record {
  there = ground (arith, t.there);
  bound = λ m h. ground (arith, t.bound m, h);
  kept = λ d small within.
      rw (digit-bit_or d bits (2 ^ (high - n)), digit-power d (high - n), t.kept d small within)
        (ground arith);
}

abbrev Tracked : List ℕ → Option ℕ → ℕ → Type 0
Tracked ns none bits = ns ≡ []
Tracked ns (some high) bits = Tracks ns high bits

check_from-fresh :
    (n : ℕ) (high : Option ℕ) (bits : ℕ) (ns : List ℕ)
    → Tracked ns high bits
    → check_from high bits n ≡ reject (not (fresh n ns)) replay
check_from-fresh n none bits ns t = rw t
check_from-fresh n (some high) bits ns t = elim (Bool-cases (leb n high)) [
  | inr above ↦
      let unseen : has n ns ≡ false = ground (arith, t.bound n, above) in
      rw (above, unseen, all_below (n + 64) high ns t.bound (ground (arith, above)))
  | inl within ↦ elim (Bool-cases (leb 64 (high - n))) [
    | inl far ↦
        rw (within, far, not_all_below (n + 64) high ns t.there (ground (arith, within, far)))
          (ground arith)
    | inr near ↦
        let below = all_below (n + 64) high ns t.bound (ground (arith, within, near)) in
        let back : high - (high - n) ≡ n = ground (arith, within) in
        let k =
          subst (λ j. digit (high - n) bits ≡ one_if (has j ns)) back
            (t.kept (high - n) (ground (arith, near)) (omega arith)) in
        rw (within, spent-digit (high - n) bits (ground (arith, near)), k, below) (ground arith)
  ]
]

accept_from-Tracked :
    (n : ℕ) (high : Option ℕ) (bits : ℕ) (ns : List ℕ)
    → Tracked ns high bits
    → check_from high bits n ≡ ok tt
    → Tracked (n ∷ ns) (accept_from high bits n).highest (accept_from high bits n).bits
accept_from-Tracked n none bits ns t passed = rw t (Tracks-first n)
accept_from-Tracked n (some high) bits ns t passed = elim (Bool-cases (ltb high n)) [
  | inl above ↦ rw above (Tracks-later n high bits ns (ground (arith, above)) t)
  | inr within ↦
      let le : n ≤ high = ground (arith, within) in
      let near : high - n < 64 = ground (arith, passed, le) in
      rw within (Tracks-earlier n high bits ns le near t)
]

Window-Tracked : {ns : List ℕ} {r : Replay} → Window ns r → Tracked ns r.highest r.bits
unfolding check accept
Window-Tracked opens = refl
Window-Tracked (accepts n {ns} {r} w passed) =
    accept_from-Tracked n r.highest r.bits ns (Window-Tracked w) passed

-- Whatever packets a session accepted before, each one checked first, its window refuses a packet
-- exactly if it was accepted before or lies 64 or more below an accepted one.
pub check_lem :
    (n : ℕ) {ns : List ℕ} {r : Replay} → Window ns r → check n r ≡ reject (not (fresh n ns)) replay
unfolding check
check_lem n {ns} {r} w = check_from-fresh n r.highest r.bits ns (Window-Tracked w)
