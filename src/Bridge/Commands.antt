-- ===== src/Bridge/Commands.antt =====
-- The request decoder accepts exactly one encoding of each command, and nothing else.
use mesh_lab.Prelude.{
  ℕ, ◌+◌, ◌≤◌, ◌<◌, ◌≡◌, refl, sym, ap, subst, ◌∙◌, ◌↔◌, inl, inr, Bool, false, not, ◌||◌, List, [],
  ◌∷◌, ◌++◌, some, length, length-append, get_elem?, drop, ltb, ◌==◌, ok, ◌>>◌, reject, ok_or,
  >>=-eq-ok, ok_or-eq-ok, arith, All, All-append_right, append-nil, ==_iff, Result-cases, le→ltb,
  Bool-cases, drop-length, cons_of_first,
}
use mathlib.Core.Path.{ap₂}
use mesh_lab.Durable.{IsByte, IsU64}
use mesh_lab.Codec.{head_bytes, uint}
use mesh_lab.Codec.Head.{value-head, remaining-value-head, length-head_bytes_le}
use mesh_lab.Codec.Canonical.{value_inv}
use mesh_lab.Bridge.{
  Error, Result, Command, engine_info, subscribes, verifies, invalid_argument, read_uint,
  decode_request, command_of, max_counter, api_version, incompatible_version,
}
use mesh_lab.Bridge.Requests.{read_uint-uint, at}

-- The method and argument of a command.
abbrev pub method_of : Command → ℕ
method_of engine_info = 0
method_of (subscribes _) = 1
method_of (verifies _) = 2

abbrev pub argument_of : Command → ℕ
argument_of engine_info = 0
argument_of (subscribes cursor) = cursor
argument_of (verifies request_id) = request_id

-- Arguments are exactly representable in all host languages, and a request number is not 0.
abbrev pub IsCommand : Command → Type 0
IsCommand engine_info = Unit {0}
IsCommand (subscribes cursor) = cursor ≤ max_counter
IsCommand (verifies request_id) = (0 < request_id) × (request_id ≤ max_counter)

-- The request [1, method, argument] in canonical CBOR.
abbrev pub request_bytes : Command → List ℕ
request_bytes c =
    0x83 ∷ (head_bytes 0 1 ++ (head_bytes 0 (method_of c) ++ head_bytes 0 (argument_of c)))

read_uint_inv :
    (bytes : List ℕ) (pos n p : ℕ)
    → All IsByte (drop pos bytes)
    → read_uint bytes pos ≡ ok (n, p)
    → (drop pos bytes ≡ head_bytes 0 n ++ drop p bytes) × All IsByte (drop p bytes)
read_uint_inv bytes pos n p those h = elim (Result-cases (uint (at bytes pos))) [
  | inl ((m, r), got) ↦
      let both : ◌≡◌ {A = Result Error (ℕ × ℕ)} (ok (n, p)) (ok (m, r.pos)) =
        sym h ∙ read_uint-uint bytes pos ∙ rw got in
      let (_, reads) = value_inv 0 m (at bytes pos) r those (unfold uint in got) in
      let same : r ≡ at bytes p = ground (arith, both, reads.moved) in
      let split : drop pos bytes ≡ head_bytes 0 n ++ drop p bytes =
        ground (arith, both, same, reads.taken) in
      (
        split,
        All-append_right IsByte (head_bytes 0 n) (drop p bytes) (subst (All IsByte) split those),
      )
  | inr (e, got) ↦ cc (h, read_uint-uint bytes pos, got)
]

read_uint-head :
    (bytes : List ℕ) (pos n : ℕ) (rest : List ℕ)
    → IsU64 n
    → drop pos bytes ≡ head_bytes 0 n ++ rest
    → (read_uint bytes pos ≡ ok (n, pos + length (head_bytes 0 n)))
      × (drop (pos + length (head_bytes 0 n)) bytes ≡ rest)
read_uint-head bytes pos n rest fits h =
    let got : uint (at bytes pos) ≡ ok (n, at bytes (pos + length (head_bytes 0 n))) =
      unfold uint in value-head 0 n (at bytes pos) rest (omega arith) fits h in
    (read_uint-uint bytes pos ∙ rw got, remaining-value-head 0 n (at bytes pos) rest h)

command_of-codes : (c : Command) → IsCommand c → command_of (method_of c) (argument_of c) ≡ ok c
command_of-codes engine_info h = refl
command_of-codes (subscribes cursor) h = refl
command_of-codes (verifies request_id) h = ground (arith, h.0)

argument_bound : (c : Command) → IsCommand c → argument_of c ≤ max_counter
argument_bound engine_info h = omega arith
argument_bound (subscribes cursor) h = h
argument_bound (verifies request_id) h = h.1

method_bound : (c : Command) → method_of c ≤ 2
method_bound engine_info = omega arith
method_bound (subscribes cursor) = omega arith
method_bound (verifies request_id) = omega arith

decode-request_bytes : (c : Command) → IsCommand c → decode_request (request_bytes c) ≡ ok c
unfolding decode_request
decode-request_bytes c good =
    let v = head_bytes 0 1 in
    let m = head_bytes 0 (method_of c) in
    let a = head_bytes 0 (argument_of c) in
    let bytes = request_bytes c in
    let one : IsU64 1 = omega arith in
    let method : IsU64 (method_of c) = omega (arith, method_bound c) in
    let argument : IsU64 (argument_of c) = omega (arith, argument_bound c good) in
    let (r₁, d₁) = read_uint-head bytes 1 1 (m ++ a) one refl in
    let (r₂, d₂) = read_uint-head bytes (1 + length v) (method_of c) a method d₁ in
    let (r₃, _) =
      read_uint-head bytes (1 + length v + length m) (argument_of c) [] argument
        (d₂ ∙ sym (append-nil a)) in
    let total : 1 + length v + length m + length a ≡ length bytes =
      omega (arith, length-append v (m ++ a), length-append m a) in
    let short : ltb 64 (length bytes) ≡ false = le→ltb 64 (length bytes) (
      omega (
        arith,
        total,
        length-head_bytes_le 0 1,
        length-head_bytes_le 0 (method_of c),
        length-head_bytes_le 0 (argument_of c),
      )) in
    rw (short, r₁, r₂, r₃, (==_iff _ (length bytes)).1 total, le→ltb _ _ (argument_bound c good))
      (command_of-codes c good)

command_of_inv :
    (method arg : ℕ) (c : Command)
    → arg ≤ max_counter
    → command_of method arg ≡ ok c
    → (method ≡ method_of c) × (arg ≡ argument_of c) × IsCommand c
command_of_inv method arg engine_info bound h = ground (arith, h)
command_of_inv method arg (subscribes cursor) bound h = ground (arith, h)
command_of_inv method arg (verifies request_id) bound h = ground (arith, h)

first_tag :
    (long : Bool) (b : ℕ) {u : Unit {0}}
    → reject (long || not (b == 0x83)) invalid_argument ≡ ok u
    → b ≡ 0x83
first_tag long b h = ground (arith, h)

-- The checks behind the three numbers of a request.
abbrev checks : List ℕ → ℕ → ℕ → ℕ → ℕ → Result Error Command
checks bytes version method arg p = do
  reject (not (p == length bytes) || ltb max_counter arg) invalid_argument
  reject (not (version == api_version)) incompatible_version
  command_of method arg

checks_inv :
    (bytes : List ℕ) (version method arg p : ℕ) (c : Command)
    → checks bytes version method arg p ≡ ok c
    → (p ≡ length bytes) × (version ≡ 1) × (arg ≤ max_counter) × (command_of method arg ≡ ok c)
checks_inv bytes version method arg p c h =
    elim (Bool-cases (not (p == length bytes) || ltb max_counter arg)) [
      | inl e ↦ cc (h, ap (λ t. reject t invalid_argument) e)
      | inr e ↦ elim (Bool-cases (not (version == 1))) [
        | inl f ↦ ground (arith, h, e, f)
        | inr f ↦ (ground (arith, e), ground (arith, f), ground (arith, e), ground (arith, h, e, f))
      ]
    ]

record Parts (bytes : List ℕ) (c : Command) : Type 0 where
  version : ℕ
  method : ℕ
  arg : ℕ
  p₁ : ℕ
  p₂ : ℕ
  p₃ : ℕ
  first : get_elem? bytes 0 ≡ some 0x83
  got₁ : read_uint bytes 1 ≡ ok (version, p₁)
  got₂ : read_uint bytes p₁ ≡ ok (method, p₂)
  got₃ : read_uint bytes p₂ ≡ ok (arg, p₃)
  checked : checks bytes version method arg p₃ ≡ ok c

decode_request-Parts : (bytes : List ℕ) (c : Command) → decode_request bytes ≡ ok c → Parts bytes c
unfolding decode_request
decode_request-Parts bytes c h =
    let (b, head, h₀) = >>=-eq-ok (ok_or (get_elem? bytes 0) invalid_argument) _ h in
    let (_, tested, h₁) =
      >>=-eq-ok (reject (ltb 64 (length bytes) || not (b == 0x83)) invalid_argument) _ h₀ in
    let ((version, p₁), got₁, h₂) = >>=-eq-ok (read_uint bytes 1) _ h₁ in
    let ((method, p₂), got₂, h₃) = >>=-eq-ok (read_uint bytes p₁) _ h₂ in
    let ((arg, p₃), got₃, h₄) = >>=-eq-ok (read_uint bytes p₂) _ h₃ in
    let tag : b ≡ 0x83 = first_tag (ltb 64 (length bytes)) b tested in
    record {
      version = version;
      method = method;
      arg = arg;
      p₁ = p₁;
      p₂ = p₂;
      p₃ = p₃;
      first = ok_or-eq-ok (get_elem? bytes 0) invalid_argument b head ∙ ap some tag;
      got₁ = got₁;
      got₂ = got₂;
      got₃ = got₃;
      checked = h₄;
    }

decode_request_inv :
    (bytes : List ℕ) (c : Command)
    → All IsByte bytes
    → decode_request bytes ≡ ok c
    → (bytes ≡ request_bytes c) × IsCommand c
decode_request_inv bytes c those h =
    let q = decode_request-Parts bytes c h in
    let whole = cons_of_first bytes 0x83 q.first in
    let tail : All IsByte (drop 1 bytes) = (subst (All IsByte) whole those).1 in
    let (s₁, t₁) = read_uint_inv bytes 1 q.version q.p₁ tail q.got₁ in
    let (s₂, t₂) = read_uint_inv bytes q.p₁ q.method q.p₂ t₁ q.got₂ in
    let (s₃, _) = read_uint_inv bytes q.p₂ q.arg q.p₃ t₂ q.got₃ in
    let (e₃, one, bound, cmd) = checks_inv bytes q.version q.method q.arg q.p₃ c q.checked in
    let (m, a, good) = command_of_inv q.method q.arg c bound cmd in
    let end : drop q.p₃ bytes ≡ [] = ap (λ p. drop p bytes) e₃ ∙ drop-length bytes in
    let last : drop q.p₂ bytes ≡ head_bytes 0 (argument_of c) =
      s₃ ∙ ap₂ (λ n t. head_bytes 0 n ++ t) a end ∙ append-nil _ in
    let rest : drop q.p₁ bytes ≡ head_bytes 0 (method_of c) ++ head_bytes 0 (argument_of c) =
      s₂ ∙ ap₂ (λ n t. head_bytes 0 n ++ t) m last in
    (whole ∙ ap (◌∷◌ 0x83) (s₁ ∙ ap₂ (λ n t. head_bytes 0 n ++ t) one rest), good)

-- A request is decoded to a command exactly if it is that command's canonical encoding and the
-- command's argument is in range.
pub decode_request_iff :
    (bytes : List ℕ) (c : Command)
    → All IsByte bytes
    → (decode_request bytes ≡ ok c) ↔ ((bytes ≡ request_bytes c) × IsCommand c)
decode_request_iff bytes c those =
    (decode_request_inv bytes c those, λ h. rw (h.0) (decode-request_bytes c h.1))
