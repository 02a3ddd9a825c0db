-- ===== src/Runtime/Receiver/Tests.antt =====
-- An object that is inspected, verified and committed.
use mesh_lab.Prelude.{ℕ, ◌≡◌, refl, List, [], ◌∷◌, none, replicate, ok, err}
use mesh_lab.Prelude.OrdMap.{contains_key, insert}
use mesh_lab.Prelude.Find.{find_key}
use mesh_lab.Durable.{MemberId, ObjectId, member_ord, object_ord, conflict, storage_unavailable}
use mesh_lab.Runtime.Receiver.{
  DurableReceiver, ReceiveToken, ReceiveTransition, Delivery, new, start, inspected, verified,
  inspecting, verifying, committing, commit, token, locate, issue,
}
use mesh_lab.Runtime.Receiver.Moves.{Call, starts, inspects, verifies, fails, call, issued}
use mesh_lab.Runtime.Receiver.Tokens.{IsValid}
use mesh_lab.Runtime.Receiver.Outcomes.{Answers, asks, answered}
use mesh_lab.Runtime.Receiver.Once.{run, run_bounded, token_once}

abbrev object : ℕ → ObjectId
object n = record { id = replicate 32 n }

abbrev member : MemberId
member = record { id = replicate 32 1 }

-- A proof stands for its object and member.
abbrev Parcel : Type 0
Parcel = ObjectId × MemberId

instance abbrev parcel : Delivery Parcel
parcel = record { object_id = λ p. p.0; member_of = λ p. p.1 }

abbrev fresh : DurableReceiver
fresh = record { member = member; incarnation = 6; next = 1; pending = [] }

created : new member 6 ≡ ok fresh
unfolding new
created = refl

abbrev numbered : ℕ → ReceiveToken
numbered n = record { incarnation = 6; sequence = n }

abbrev begun : List (Call Parcel)
begun = starts (object 5) ∷ inspects (numbered 1) none ∷ starts (object 4) ∷ []

run_bounded_example : IsValid (run begun fresh)
run_bounded_example = run_bounded begun member 6 fresh created

abbrev waiting : DurableReceiver
waiting = record {
  member = member;
  incarnation = 6;
  next = 4;
  pending =
      (object 4, record { token = numbered 3; phase = inspecting })
      ∷ (object 5, record { token = numbered 2; phase = verifying })
      ∷ [];
}

reached : run begun fresh ≡ waiting
unfolding run call start inspected issue token locate find_key contains_key insert
reached = refl

waiting-IsValid : IsValid waiting
waiting-IsValid = rw reached at run_bounded_example

abbrev proof : Parcel
proof = (object 5, member)

abbrev verifying_it : Call Parcel
verifying_it = verifies (numbered 2) proof

abbrev asked : ReceiveTransition Parcel
asked = asks (commit (numbered 4) proof)

abbrev verified_one : DurableReceiver
verified_one = issued (object 5) committing waiting

verified_there : call verifying_it waiting ≡ (ok asked, verified_one)
unfolding call verified issue token locate find_key insert
verified_there = refl

answered_example : Answers waiting verifying_it asked verified_one
answered_example =
    answered waiting verified_one waiting-IsValid.sorted verifying_it (numbered 2) asked refl
      verified_there

abbrev late : Call Parcel
late = fails (numbered 2) storage_unavailable

abbrev others : List (Call Parcel)
others = starts (object 9) ∷ []

token_once_example : call late (run others verified_one) ≡ (err conflict, run others verified_one)
token_once_example =
    token_once waiting verified_one verifying_it late (numbered 2) asked others waiting-IsValid refl
      verified_there refl
