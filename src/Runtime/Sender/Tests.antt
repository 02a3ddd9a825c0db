-- ===== src/Runtime/Sender/Tests.antt =====
-- One send of three bytes, whose message is its manifest and whose digests are zeros.
use mesh_lab.Prelude.{
  ℕ, ◌≡◌, refl, true, List, [], ◌∷◌, some, none, replicate, ok, err, arith, subst,
}
use mesh_lab.Prelude.OrdMap.{get, insert}
use mesh_lab.Prelude.Find.{find_key}
use mesh_lab.Durable.{MemberId, ObjectId, OperationId, operation_ord, conflict}
use mesh_lab.Object.{Manifest, ObjectPolicy, id_of}
use mesh_lab.Runtime.Sender.{
  DurableSender, Pending, SendRequest, Sealed, accepted, reserving, reserve, protect, commit, new,
  locate, reserved, start, protected, committed, asks, reports, command_digest_of, drop_pending,
}
use mesh_lab.Runtime.Sender.Moves.{starts, reserves, call, next_of}
use mesh_lab.Runtime.Sender.Tokens.{IsValid, new-IsValid}
use mesh_lab.Runtime.Sender.Once.{run, answered_once, run_valid}
use mesh_lab.Runtime.Sender.Progress.{accepted_at_last}

instance abbrev own_manifest : Sealed Manifest
own_manifest = record { manifest_of = λ m. m }

abbrev zeros : List ℕ → List ℕ
zeros b = replicate 32 0

abbrev origin : MemberId
origin = record { id = replicate 32 1 }

abbrev operation : OperationId
operation = record { id = replicate 16 2 }

abbrev policy : ObjectPolicy
policy = record {
  namespace = record { name = 0x61 ∷ [] };
  epoch = 1;
  targets = record { id = replicate 32 5 } ∷ [];
  expires_at = 100;
  hop_limit = 3;
}

abbrev request : SendRequest
request = record { operation = operation; policy = policy; plaintext = 1 ∷ 2 ∷ 3 ∷ [] }

abbrev idle_sender : DurableSender
idle_sender = record { origin = origin; incarnation = 7; next_token = 1; pending = [] }

idle_made : new origin 7 ≡ ok idle_sender
unfolding new
idle_made = refl

idle-IsValid : IsValid idle_sender
idle-IsValid = new-IsValid origin 7 idle_sender idle_made

run_valid_example : IsValid (run {Message = Manifest} zeros (starts request 5 ∷ []) idle_sender)
run_valid_example =
    run_valid {Message = Manifest} zeros (starts request 5 ∷ []) origin 7 idle_sender idle_made

abbrev message : Manifest
message = record {
  origin = origin;
  sequence = 4;
  namespace = policy.namespace;
  epoch = 1;
  targets = policy.targets;
  expires_at = 100;
  hop_limit = 3;
  content_len = 3;
  hashes = replicate 32 0 ∷ [];
}

nothing_pending : get operation idle_sender.pending ≡ none
unfolding get
nothing_pending = refl

accepted_at_last_example :
    (s₁ s₂ s₃ s₄ : DurableSender) × (start zeros {Message = Manifest} request 5 idle_sender ≡ (
      ok (
          asks (
            reserve (next_of idle_sender) operation (command_digest_of zeros request origin) true)),
      s₁,
    ))
    × (reserved {Message = Manifest} (next_of idle_sender) 4 none 6 s₁
        ≡ (ok (asks (protect (next_of s₁) origin 4 request)), s₂))
    × (protected zeros (next_of s₁) message 7 s₂ ≡ (
      ok (asks (commit (next_of s₂) operation (command_digest_of zeros request origin) message)),
      s₃,
    ))
    × (committed {Message = Manifest} (next_of s₂) (id_of zeros message) s₃
        ≡ (ok (reports (accepted operation (id_of zeros message))), s₄))
    × (get operation s₄.pending ≡ none)
accepted_at_last_example =
    accepted_at_last zeros idle_sender request message 4 5 6 7 idle-IsValid nothing_pending
      (omega arith) (omega arith) (omega arith) (omega arith) refl (omega arith) (omega arith)
      (omega arith) (omega arith)

abbrev waiting : Pending
waiting = record {
  token = record { incarnation = 7; sequence = 1 };
  phase = reserving;
  command_digest = replicate 32 0;
  policy = policy;
  request = some request;
  origin_sequence = none;
  expected_object = none;
}

abbrev busy_sender : DurableSender
busy_sender = record idle_sender { next_token = 2; pending = (operation, waiting) ∷ [] }

started : run {Message = Manifest} zeros (starts request 5 ∷ []) idle_sender ≡ busy_sender
unfolding run call start command_digest_of get insert
started = refl

busy-IsValid : IsValid busy_sender
busy-IsValid =
    subst IsValid started
      (run_valid {Message = Manifest} zeros (starts request 5 ∷ []) origin 7 idle_sender idle_made)

abbrev known : ObjectId
known = record { id = replicate 32 4 }

-- The store committed this operation before.
found_stored :
    call {Message = Manifest} zeros
      (reserves (record { incarnation = 7; sequence = 1 }) 4 (some known) 6)
      busy_sender
    ≡ (ok (reports (accepted operation known)), drop_pending operation busy_sender)
unfolding call reserved locate find_key
found_stored = refl

answered_once_example :
    call {Message = Manifest} zeros
      (reserves (record { incarnation = 7; sequence = 1 }) 4 none 8)
      (run {Message = Manifest} zeros (starts request 7 ∷ []) (drop_pending operation busy_sender))
    ≡ (
      err conflict,
      run {Message = Manifest} zeros (starts request 7 ∷ []) (drop_pending operation busy_sender),
    )
answered_once_example =
    answered_once {Message = Manifest} zeros busy_sender (drop_pending operation busy_sender)
      (reserves (record { incarnation = 7; sequence = 1 }) 4 (some known) 6)
      (reserves (record { incarnation = 7; sequence = 1 }) 4 none 8)
      (record { incarnation = 7; sequence = 1 }) (reports (accepted operation known))
      (starts request 7 ∷ []) busy-IsValid refl found_stored refl
