-- ===== src/Replication/Transport/Selection.antt =====
-- The next hop is the best candidate that may be used.
use mesh_lab.Prelude.{
  ◌≡◌, refl, sym, ap, ◌∙◌, subst, ◌≢◌, ◌↔◌, ◌<◌, ltb, ◌⊎◌, inl, inr, Bool, true, false, not, ◌&&◌,
  List, [], ◌∷◌, ◌++◌, Option, some, none, all, select, ◌==◌, ok, reject_then, >>=-eq-ok,
  Bool-cases, arith, append_assoc, append-nil,
}
use mathlib.Core.List.{Memᴰ}
use mathlib.Core.List.Memᴰ
use mesh_lab.Prelude.Ord.{equal, equal_iff, less}
use mesh_lab.Durable.{MemberId, member_ord, invalid_input}
use mesh_lab.Replication.Transport.{
  TransportCandidate, TransportChoice, TransportDecision, no_route, send, keep, switch,
  TransportKind, wifi_aware, bluetooth, transport_rank, candidate_choice, is_member, passed_over,
  gather, sort_candidates, decide_from, select_transport,
}
use mesh_lab.Replication.Transport.Sorting.{below, sort_none, sort_head}

-- The bearer that the host is told to use.
abbrev pub chosen : TransportDecision → Option TransportChoice
chosen no_route = none
chosen (send to) = some to
chosen (keep to) = some to
chosen (switch from to) = some to

all_append :
    (p : TransportCandidate → Bool) (xs ys : List TransportCandidate)
    → all p xs ≡ true
    → all p ys ≡ true
    → all p (xs ++ ys) ≡ true
all_append p [] ys h k = k
all_append p (x ∷ xs) ys h k = ground (arith, h, k, all_append p xs ys)

all_at :
    (p : TransportCandidate → Bool) {c : TransportCandidate} {xs : List TransportCandidate}
    → Memᴰ c xs
    → all p xs ≡ true
    → p c ≡ true
all_at p (Memᴰ.head {x = x} {xs = xs} e) h = ap p e ∙ ground (arith, h)
all_at p (Memᴰ.tail {x = x} {xs = xs} m) h = all_at p m (ground (arith, h))

first_or_later :
    (p : TransportCandidate → Bool) {c x : TransportCandidate} {xs ys : List TransportCandidate}
    → Memᴰ c (x ∷ ys)
    → p x ≡ true
    → (Memᴰ c ys → Memᴰ c xs × (p c ≡ true))
    → Memᴰ c (x ∷ xs) × (p c ≡ true)
first_or_later p (Memᴰ.head e) h later = (Memᴰ.head e, ap p e ∙ h)
first_or_later p (Memᴰ.tail m) h later = let (there, good) = later m in (Memᴰ.tail there, good)

-- Among the selected ones means selected, and among all.
select_at :
    (p : TransportCandidate → Bool) {c : TransportCandidate} (xs : List TransportCandidate)
    → Memᴰ c (select p xs)
    → Memᴰ c xs × (p c ≡ true)
select_at p [] m = absurd (Memᴰ.not-nil m)
select_at p (x ∷ xs) m = elim (Bool-cases (p x)) [
  | inl in_it ↦ first_or_later p (rw in_it at m) in_it (λ t. select_at p xs t)
  | inr out ↦ let (there, good) = select_at p xs (rw out at m) in (Memᴰ.tail there, good)
]

module _ (local : MemberId) (received_from : Option MemberId) where
  -- The candidates that may be used, and what the loop requires of them.
  abbrev pub usable : TransportCandidate → Bool
  usable c = not (passed_over received_from c)

  abbrev sound : TransportCandidate → Bool
  sound c = not (equal c.peer local) && not (c.eta_millis == 0)

  gather_inv :
      (acc cs es : List TransportCandidate)
      → all sound acc ≡ true
      → gather local received_from acc cs ≡ ok es
      → (es ≡ acc ++ select usable cs) × (all sound es ≡ true)
  unfolding gather
  gather_inv acc [] es s h = let e : es ≡ acc = ground (arith, h) in rw e (sym (append-nil acc), s)
  gather_inv acc (c ∷ cs) es s h = elim (Bool-cases (passed_over received_from c)) [
    | inl over ↦ rw over (gather_inv acc cs es s (ground (arith, h, over)))
    | inr kept ↦
        let good : sound c ≡ true = ground (arith, h, kept) in
        let (split, all_good) =
          gather_inv (acc ++ c ∷ []) cs es (all_append sound acc (c ∷ []) s (ground (arith, good)))
            (ground (arith, h, kept)) in
        rw kept (split ∙ append_assoc acc (c ∷ []) (select usable cs), all_good)
  ]

-- A link that may carry the object: authenticated, healthy, and not to the previous hop.
pub record Usable (received_from : Option MemberId) (c : TransportCandidate) : Type 0 where
  pub authenticated : c.authenticated ≡ true
  pub healthy : c.healthy ≡ true
  pub onward : received_from ≢ some c.peer

is_member_iff : (r : Option MemberId) (m : MemberId) → (is_member r m ≡ true) ↔ (r ≡ some m)
is_member_iff none m = (λ h. cc, λ h. cc)
is_member_iff (some n) m =
    (λ h. ap some ((equal_iff n m).0 h), λ h. (equal_iff n m).1 (ground (arith, h)))

passed_over-Usable :
    (r : Option MemberId) (c : TransportCandidate) → passed_over r c ≡ false → Usable r c
passed_over-Usable r c h = record {
  authenticated = ground (arith, h);
  healthy = ground (arith, h);
  onward = λ e. let back = (is_member_iff r c.peer).1 e in ground (arith, h, back);
}

Usable-passed_over :
    (r : Option MemberId) (c : TransportCandidate) → Usable r c → passed_over r c ≡ false
Usable-passed_over r c u = elim (Bool-cases (is_member r c.peer)) [
  | inl back ↦ absurd (u.onward ((is_member_iff r c.peer).0 back))
  | inr on ↦ ground (arith, on, u.authenticated, u.healthy)
]

-- `c` comes before `x`, or they tie: a smaller estimate, with the same one Wi-Fi Aware before
-- Bluetooth, and with the same bearer a member that is not the greater one.
abbrev pub Ranks : TransportCandidate → TransportCandidate → Type 0
Ranks c x =
    (c.eta_millis < x.eta_millis)
    ⊎ ((c.eta_millis ≡ x.eta_millis)
        × (((c.transport ≡ wifi_aware) × (x.transport ≡ bluetooth))
            ⊎ ((c.transport ≡ x.transport) × (less x.peer c.peer ≡ false))))

by_bearer :
    (j k : TransportKind) (b : Bool)
    → (transport_rank j < transport_rank k) ⊎ ((transport_rank j ≡ transport_rank k) × (b ≡ false))
    → ((j ≡ wifi_aware) × (k ≡ bluetooth)) ⊎ ((j ≡ k) × (b ≡ false))
by_bearer wifi_aware wifi_aware b (inl h) = absurd (omega (arith, h))
by_bearer wifi_aware wifi_aware b (inr (e, h)) = inr (refl, h)
by_bearer wifi_aware bluetooth b h = inl (refl, refl)
by_bearer bluetooth wifi_aware b (inl h) = absurd (omega (arith, h))
by_bearer bluetooth wifi_aware b (inr (e, h)) = absurd (omega (arith, e))
by_bearer bluetooth bluetooth b (inl h) = absurd (omega (arith, h))
by_bearer bluetooth bluetooth b (inr (e, h)) = inr (refl, h)

not_below-Ranks : (x c : TransportCandidate) → below x c ≡ false → Ranks c x
not_below-Ranks x c h = elim (Bool-cases (ltb c.eta_millis x.eta_millis)) [
  | inl sooner ↦ inl (ground (arith, sooner))
  | inr later ↦
      let tie : c.eta_millis ≡ x.eta_millis = ground (arith, h, later) in
      inr (
        tie,
        by_bearer c.transport x.transport (less x.peer c.peer)
            (elim (Bool-cases (ltb (transport_rank c.transport) (transport_rank x.transport))) [
              | inl better ↦ inl (ground (arith, better))
              | inr worse ↦
                  let same : transport_rank c.transport ≡ transport_rank x.transport =
                    ground (arith, h, later, worse) in
                  inr (same, ground (arith, h, tie, same))
            ]),
      )
]

Memᴰ-select :
    (p : TransportCandidate → Bool) {c : TransportCandidate} {xs : List TransportCandidate}
    → Memᴰ c xs
    → p c ≡ true
    → Memᴰ c (select p xs)
Memᴰ-select p (Memᴰ.head {x = x} {xs = xs} e) h = rw (ap p (sym e) ∙ h) (Memᴰ.head e)
Memᴰ-select p (Memᴰ.tail {x = x} {xs = xs} m) h = elim (Bool-cases (p x)) [
  | inl in_it ↦ rw in_it (Memᴰ.tail (Memᴰ-select p m h))
  | inr out ↦ rw out (Memᴰ-select p m h)
]

none_Usable :
    (r : Option MemberId) (xs : List TransportCandidate)
    → ((x : TransportCandidate) → Memᴰ x xs → ¬ Usable r x)
    → select (λ x. not (passed_over r x)) xs ≡ []
none_Usable r [] h = refl
none_Usable r (x ∷ xs) h = elim (Bool-cases (passed_over r x)) [
  | inl over ↦ rw over (none_Usable r xs (λ y m. h y (Memᴰ.tail m)))
  | inr kept ↦ absurd (h x (Memᴰ.head refl) (passed_over-Usable r x kept))
]

decide_none :
    (current : Option TransportChoice) (es : List TransportCandidate)
    → chosen (decide_from current es) ≡ none
    → es ≡ []
decide_none current [] h = refl
decide_none none (c ∷ cs) h = cc
decide_none (some now) (c ∷ cs) h = ground (arith, h)

decide_some :
    (current : Option TransportChoice) (es : List TransportCandidate) (n : TransportChoice)
    → chosen (decide_from current es) ≡ some n
    → (c : TransportCandidate) × (rest : List TransportCandidate) × (es ≡ c ∷ rest)
      × (n ≡ candidate_choice c)
decide_some current [] n h = cc
decide_some none (c ∷ cs) n h = (c, cs, refl, ground (arith, h))
decide_some (some now) (c ∷ cs) n h = (c, cs, refl, ground (arith, h))

selected :
    (local : MemberId) (current : Option TransportChoice) (candidates : List TransportCandidate)
    (received_from : Option MemberId) (d : TransportDecision)
    → select_transport local current candidates received_from ≡ ok d
    → (es : List TransportCandidate) × (es ≡ select (usable local received_from) candidates)
      × (all (sound local received_from) es ≡ true)
      × (d ≡ decide_from current (sort_candidates es))
unfolding select_transport
selected local current candidates received_from d h =
    let rest = reject_then (is_member received_from local) invalid_input _ h in
    let (es, got, last) = >>=-eq-ok (gather local received_from [] candidates) _ rest in
    let (split, good) = gather_inv local received_from [] candidates es refl got in
    (es, split, good, ground (arith, last))

-- A choice: an offered link that may carry the object, does not lead to the phone itself, and ranks
-- before every offered link that may.
pub record IsBest (local : MemberId) (received_from : Option MemberId)
    (candidates : List TransportCandidate) (n : TransportChoice) : Type 0 where
  pub link : TransportCandidate
  pub offered : Memᴰ link candidates
  pub named :
      (n.peer ≡ link.peer) × (n.transport ≡ link.transport) × (n.eta_millis ≡ link.eta_millis)
  pub usable : Usable received_from link
  pub other : link.peer ≢ local
  pub first : (x : TransportCandidate) → Memᴰ x candidates → Usable received_from x → Ranks link x

-- The link that is chosen was offered, is authenticated and healthy, leads neither back to the
-- previous hop nor to the phone itself, and every offered link that is authenticated, is healthy and
-- does not lead back has a greater estimate, or with the same one a bearer that is Bluetooth where the
-- chosen one is Wi-Fi Aware, or with the same bearer a member that is not smaller.
pub select_transport-some :
    (local : MemberId) (current : Option TransportChoice) (candidates : List TransportCandidate)
    (received_from : Option MemberId) (d : TransportDecision) (n : TransportChoice)
    → select_transport local current candidates received_from ≡ ok d
    → chosen d ≡ some n
    → IsBest local received_from candidates n
select_transport-some local current candidates received_from d n h k =
    let (es, split, good, made) = selected local current candidates received_from d h in
    let (c, rest, sorted, choice) =
      decide_some current (sort_candidates es) n (ap chosen (sym made) ∙ k) in
    let (there, top) = sort_head es c rest sorted in
    let (offered, fit) =
      select_at (usable local received_from) candidates (subst (Memᴰ c) split there) in
    let sane = all_at (sound local received_from) there good in
    record {
      link = c;
      offered = offered;
      named =
          (ap (λ t. t.peer) choice, ap (λ t. t.transport) choice, ap (λ t. t.eta_millis) choice);
      usable = passed_over-Usable received_from c (ground (arith, fit));
      other = λ e. let own = (equal_iff c.peer local).1 e in ground (arith, sane, own);
      first = λ x m u.
          let kept : usable local received_from x ≡ true =
            ground (arith, Usable-passed_over received_from x u) in
          let within =
            subst (Memᴰ x) (sym split) (Memᴰ-select (usable local received_from) m kept) in
          not_below-Ranks x c (ground (arith, all_at (λ y. not (below y c)) within top));
    }

-- The decision that succeeds is that there is no route exactly if no offered link is authenticated,
-- healthy and to another member than the previous hop.
pub select_transport-none_iff :
    (local : MemberId) (current : Option TransportChoice) (candidates : List TransportCandidate)
    (received_from : Option MemberId) (d : TransportDecision)
    → select_transport local current candidates received_from ≡ ok d
    → (d ≡ no_route) ↔ ((x : TransportCandidate) → Memᴰ x candidates → ¬ Usable received_from x)
unfolding sort_candidates
select_transport-none_iff local current candidates received_from d h =
    let (es, split, good, made) = selected local current candidates received_from d h in
    (
      λ none_made x m u.
          let empty =
            sort_none es
              (decide_none current (sort_candidates es) (ap chosen (sym made ∙ none_made))) in
          let kept : usable local received_from x ≡ true =
            ground (arith, Usable-passed_over received_from x u) in
          Memᴰ.not-nil
            (subst (Memᴰ x) (sym split ∙ empty) (Memᴰ-select (usable local received_from) m kept)),
      λ nobody.
          let empty : es ≡ [] = split ∙ none_Usable received_from candidates nobody in
          made ∙ ap (λ t. decide_from current (sort_candidates t)) empty,
    )
