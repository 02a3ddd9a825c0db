-- ===== src/Session/Once.antt =====
-- No packet number is used for two frames, and none arrives twice.
use mesh_lab.Prelude.{
  ℕ, ◌^◌, ◌≤◌, ◌<◌, ◌≡◌, ◌≢◌, refl, sym, subst, ◌⊎◌, inl, inr, true, List, [], ◌∷◌, ◌++◌, length,
  take, drop, take-append_of, drop-append_of, ok, arith,
}
use mesh_lab.Codec.Words.{be_bytes, length-be_bytes, from_be-be_bytes}
use mesh_lab.Crypto.{Ed25519}
use mesh_lab.Session.Noise.{Snow, max_packets}
use mesh_lab.Session.Packets.{Replay, check}
use mesh_lab.Session.Packets.Window.{Window, accepts, has, fresh, check_lem}
use mesh_lab.Session.{Session, Incoming, nonce_of}
use mesh_lab.Session.Moves.{
  Call, Output, refused, emitted, arrived, done, call, framed, Moves, stays, shuts, ends, spends,
  proves, emits, confirms, hears, call-Moves,
}

pub record IsValid {T : Type 0} (s : Session T) : Type 0 where
  pub sized : length s.id ≡ 32
  pub positive : 1 ≤ s.next
  pub bounded : s.next ≤ max_packets
  pub received : List ℕ
  pub window : Window received s.replay

module _ {H T Key : Type 0} (noise : Snow H T) (ed : Ed25519 Key) where
  -- A history of calls.
  unfoldable pub run : List (Call Key) → Session T → Session T
  run [] s = s
  run (c ∷ cs) s = run cs (call noise ed c s).1

pub nonce_of-framed :
    {T : Type 0} (s : Session T) (n : ℕ) (sealed : List ℕ)
    → length s.id ≡ 32
    → n < 2 ^ 64
    → nonce_of (framed s n sealed) ≡ n
nonce_of-framed s n sealed sized fits =
    let past : drop 33 (framed s n sealed) ≡ be_bytes 8 n ++ sealed =
      drop-append_of 33 0 (1 ∷ s.id) (be_bytes 8 n ++ sealed) (omega (arith, sized)) in
    let word : take 8 (be_bytes 8 n ++ sealed) ≡ be_bytes 8 n =
      take-append_of 8 (be_bytes 8 n) sealed (length-be_bytes 8 n) in
    rw (past, word) (from_be-be_bytes 8 n (omega arith))

-- The packet number was used for a frame of the session.
abbrev Gone : {T : Type 0} → ℕ → Session T → Type 0
Gone n s = ((n ≡ 0) × (s.sent_auth ≡ true)) ⊎ ((0 < n) × (n < s.next))

abbrev OnFrame : (List ℕ → Type 0) → Output → Type 0
OnFrame P (emitted f) = P f
OnFrame P (refused e) = Unit
OnFrame P (arrived n i) = Unit
OnFrame P done = Unit

module _ {T Key : Type 0} (ed : Ed25519 Key) where
  Moves-Gone :
      {s s' : Session T} {o : Output}
      → Moves ed s o s'
      → IsValid s
      → OnFrame (λ f. Gone (nonce_of f) s') o
  Moves-Gone (stays e) v = tt
  Moves-Gone (shuts e) v = tt
  Moves-Gone ends v = tt
  Moves-Gone (spends e room) v = tt
  Moves-Gone {s} (proves sealed first) v =
      inl (nonce_of-framed s 0 sealed v.sized (omega arith), refl)
  Moves-Gone {s} (emits sealed known room) v =
      let n = nonce_of-framed s s.next sealed v.sized (omega (arith, v.bounded)) in
      inr (omega (arith, n, v.positive), omega (arith, n))
  Moves-Gone (confirms n m first fresh vouched) v = tt
  Moves-Gone (hears n b known fresh) v = tt

  Moves-other :
      {s s' : Session T} {o : Output} (n : ℕ)
      → Moves ed s o s'
      → IsValid s
      → Gone n s
      → OnFrame (λ f. nonce_of f ≢ n) o
  Moves-other n (stays e) v g = tt
  Moves-other n (shuts e) v g = tt
  Moves-other n ends v g = tt
  Moves-other n (spends e room) v g = tt
  Moves-other {s} n (proves sealed first) v g =
      ground (arith, nonce_of-framed s 0 sealed v.sized (omega arith))
  Moves-other {s} n (emits sealed known room) v g =
      ground (arith, nonce_of-framed s s.next sealed v.sized (omega (arith, v.bounded)), v.positive)
  Moves-other n (confirms m k first fresh vouched) v g = tt
  Moves-other n (hears m b known fresh) v g = tt

  Moves-keeps : {s s' : Session T} {o : Output} (n : ℕ) → Moves ed s o s' → Gone n s → Gone n s'
  Moves-keeps n (stays e) g = g
  Moves-keeps n (shuts e) g = g
  Moves-keeps n ends g = g
  Moves-keeps n (spends e room) g = ground arith
  Moves-keeps n (proves sealed first) g = ground arith
  Moves-keeps n (emits sealed known room) g = ground arith
  Moves-keeps n (confirms m k first fresh vouched) g = g
  Moves-keeps n (hears m b known fresh) g = g

  Moves-IsValid : {s s' : Session T} {o : Output} → Moves ed s o s' → IsValid s → IsValid s'
  Moves-IsValid (stays e) v = v
  Moves-IsValid (shuts e) v = record {
    sized = v.sized;
    positive = v.positive;
    bounded = v.bounded;
    received = v.received;
    window = v.window;
  }
  Moves-IsValid ends v = record {
    sized = v.sized;
    positive = v.positive;
    bounded = v.bounded;
    received = v.received;
    window = v.window;
  }
  Moves-IsValid (spends e room) v = record {
    sized = v.sized;
    positive = omega (arith, v.positive);
    bounded = omega (arith, room);
    received = v.received;
    window = v.window;
  }
  Moves-IsValid (proves sealed first) v = record {
    sized = v.sized;
    positive = v.positive;
    bounded = v.bounded;
    received = v.received;
    window = v.window;
  }
  Moves-IsValid (emits sealed known room) v = record {
    sized = v.sized;
    positive = omega (arith, v.positive);
    bounded = omega (arith, room);
    received = v.received;
    window = v.window;
  }
  Moves-IsValid (confirms n m first fresh vouched) v = record {
    sized = v.sized;
    positive = v.positive;
    bounded = v.bounded;
    received = n ∷ v.received;
    window = accepts n v.window fresh;
  }
  Moves-IsValid (hears n b known fresh) v = record {
    sized = v.sized;
    positive = v.positive;
    bounded = v.bounded;
    received = n ∷ v.received;
    window = accepts n v.window fresh;
  }

abbrev OnArrival : (ℕ → Incoming → Type 0) → Output → Type 0
OnArrival P (arrived n i) = P n i
OnArrival P (refused e) = Unit
OnArrival P (emitted f) = Unit
OnArrival P done = Unit

-- The packet number arrived before.
abbrev Seen : {T : Type 0} → ℕ → Session T → Type 0
Seen n s = (v : IsValid s) × (has n v.received ≡ true)

unseen :
    (m n : ℕ) (ns : List ℕ) (r : Replay) → Window ns r → has n ns ≡ true → check m r ≡ ok tt → m ≢ n
unseen m n ns r w there passed =
    λ e. ground (arith, check_lem m w, passed, subst (λ k. has k ns ≡ true) (sym e) there)

module _ {T Key : Type 0} (ed : Ed25519 Key) where
  Moves-Seen :
      {s s' : Session T} {o : Output} → Moves ed s o s' → IsValid s → OnArrival (λ n i. Seen n s') o
  unfolding Moves-IsValid
  Moves-Seen (stays e) v = tt
  Moves-Seen (shuts e) v = tt
  Moves-Seen ends v = tt
  Moves-Seen (spends e room) v = tt
  Moves-Seen (proves sealed first) v = tt
  Moves-Seen (emits sealed known room) v = tt
  Moves-Seen (confirms n m first fresh vouched) v =
      (Moves-IsValid ed (confirms n m first fresh vouched) v, ground arith)
  Moves-Seen (hears n b known fresh) v = (Moves-IsValid ed (hears n b known fresh) v, ground arith)

  Moves-unseen :
      {s s' : Session T} {o : Output} (n : ℕ)
      → Moves ed s o s'
      → Seen n s
      → OnArrival (λ m i. m ≢ n) o
  Moves-unseen n (stays e) v = tt
  Moves-unseen n (shuts e) v = tt
  Moves-unseen n ends v = tt
  Moves-unseen n (spends e room) v = tt
  Moves-unseen n (proves sealed first) v = tt
  Moves-unseen n (emits sealed known room) v = tt
  Moves-unseen {s} n (confirms m k first fresh vouched) (v, there) =
      unseen m n v.received s.replay v.window there fresh
  Moves-unseen {s} n (hears m b known fresh) (v, there) =
      unseen m n v.received s.replay v.window there fresh

  Moves-sees : {s s' : Session T} {o : Output} (n : ℕ) → Moves ed s o s' → Seen n s → Seen n s'
  unfolding Moves-IsValid
  Moves-sees n (stays e) s = s
  Moves-sees n (shuts e) (v, there) = (Moves-IsValid ed (shuts e) v, there)
  Moves-sees n ends (v, there) = (Moves-IsValid ed ends v, there)
  Moves-sees n (spends e room) (v, there) = (Moves-IsValid ed (spends e room) v, there)
  Moves-sees n (proves sealed first) (v, there) = (Moves-IsValid ed (proves sealed first) v, there)
  Moves-sees n (emits sealed known room) (v, there) =
      (Moves-IsValid ed (emits sealed known room) v, there)
  Moves-sees n (confirms m k first fresh vouched) (v, there) =
      (Moves-IsValid ed (confirms m k first fresh vouched) v, ground (arith, there))
  Moves-sees n (hears m b known fresh) (v, there) =
      (Moves-IsValid ed (hears m b known fresh) v, ground (arith, there))

module _ {H T Key : Type 0} (noise : Snow H T) (ed : Ed25519 Key) where
  -- What every call keeps, a history keeps.
  pub run_inv :
      (P : Session T → Type 0)
      → ((s : Session T) (c : Call Key) → P s → P (call noise ed c s).1)
      → (cs : List (Call Key)) (s : Session T) → P s
      → P (run noise ed cs s)
  unfolding run
  run_inv P keep [] s h = h
  run_inv P keep (c ∷ cs) s h = run_inv P keep cs (call noise ed c s).1 (keep s c h)

  pub run-IsValid : (cs : List (Call Key)) (s : Session T) → IsValid s → IsValid (run noise ed cs s)
  run-IsValid = run_inv IsValid (λ s c v. Moves-IsValid ed (call-Moves noise ed c s) v)

  -- A move, told by what the call gave.
  call_moved :
      (c : Call Key) (s s' : Session T) (o : Output) → call noise ed c s ≡ (o, s') → Moves ed s o s'
  call_moved c s s' o h = subst (λ p. Moves ed s p.0 p.1) h (call-Moves noise ed c s)

  -- A session that has its handshake's hash and a number to go on with never puts two frames under
  -- one packet number, whatever calls are made between them.
  pub frames_once :
      (s s₁ s₂ : Session T) (c c' : Call Key) (between : List (Call Key)) (f f' : List ℕ)
      → IsValid s
      → call noise ed c s ≡ (emitted f, s₁)
      → call noise ed c' (run noise ed between s₁) ≡ (emitted f', s₂)
      → nonce_of f' ≢ nonce_of f
  frames_once s s₁ s₂ c c' between f f' v h h' =
      let move = call_moved c s s₁ (emitted f) h in
      let gone =
        run_inv (Gone (nonce_of f))
          (λ t d g. Moves-keeps ed (nonce_of f) (call-Moves noise ed d t) g) between s₁
          (Moves-Gone ed move v) in
      let later = run-IsValid between s₁ (Moves-IsValid ed move v) in
      Moves-other ed (nonce_of f) (call_moved c' (run noise ed between s₁) s₂ (emitted f') h') later
        gone

  -- A session that was handed what came under a packet number hands out nothing more under it,
  -- whatever calls are made in between.
  pub arrivals_once :
      (s s₁ s₂ : Session T) (c c' : Call Key) (between : List (Call Key)) (n n' : ℕ)
      (i i' : Incoming)
      → IsValid s
      → call noise ed c s ≡ (arrived n i, s₁)
      → call noise ed c' (run noise ed between s₁) ≡ (arrived n' i', s₂)
      → n' ≢ n
  arrivals_once s s₁ s₂ c c' between n n' i i' v h h' =
      let seen =
        run_inv (Seen n) (λ t d g. Moves-sees ed n (call-Moves noise ed d t) g) between s₁
          (Moves-Seen ed (call_moved c s s₁ (arrived n i) h) v) in
      Moves-unseen ed n (call_moved c' (run noise ed between s₁) s₂ (arrived n' i') h') seen
