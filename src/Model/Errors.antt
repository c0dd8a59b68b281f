-- ===== src/Model/Errors.antt =====
-- errors.ts, and the error classes of agent-service.ts; a fallible operation returns a `Result`.
use mandate_flow.Base.{ℕ, ◌≡◌, refl, String, Bool, true, false}

pub data Error : Type 0 where
  http : ℕ → String → Error
  run_cancelled : Error
  security_finalization : String → Error
  incomplete_proof : String → Error
  other : String → Error

pub data Result {ℓ} (A : Type ℓ) : Type ℓ where
  err : Error → Result A
  ok : A → Result A

-- A call that throws ends the function that makes it.
infixl 5 ◌>>=◌
abbrev pub ◌>>=◌ {ℓ κ} : {A : Type ℓ} {B : Type κ} → Result A → (A → Result B) → Result B
call >>= next = elim call [ err thrown ↦ err thrown | ok value ↦ next value ]

infixl 5 ◌>>◌
abbrev pub ◌>>◌ {ℓ} : {B : Type ℓ} → Result (Unit {0}) → Result B → Result B
test >> next = test >>= (λ _. next)

-- `if (test) throw e`
abbrev pub throw_if : Bool → Error → Result (Unit {0})
throw_if true e = err e
throw_if false e = ok tt

-- What goes on after a test has not thrown.
pub throw_if-then {ℓ} :
    {A : Type ℓ} (test : Bool) (e : Error) (next : Result A) (a : A)
    → (throw_if test e >> next) ≡ ok a
    → (test ≡ false) × (next ≡ ok a)
throw_if-then true e next a h = cc
throw_if-then false e next a h = (refl, h)

abbrev pub is_ok {ℓ} : {A : Type ℓ} → Result A → Bool
is_ok (ok a) = true
is_ok (err e) = false

pub ok_inj {ℓ} : {A : Type ℓ} {a b : A} → ok a ≡ ok b → a ≡ b
ok_inj e = cc

-- A call that goes on has not thrown.
pub >>=-eq-ok {ℓ κ} :
    {A : Type ℓ} {B : Type κ} (call : Result A) (next : A → Result B) {b : B}
    → (call >>= next) ≡ ok b
    → (a : A) × ((call ≡ ok a) × (next a ≡ ok b))
>>=-eq-ok (err thrown) next h = cc
>>=-eq-ok (ok a) next h = (a, (refl, h))

-- `error.message`
abbrev pub message_of : Error → String
message_of (http code text) = text
message_of run_cancelled = "Run cancelled"
message_of (security_finalization text) = text
message_of (incomplete_proof text) = text
message_of (other text) = text

abbrev pub is_run_cancelled : Error → Bool
is_run_cancelled run_cancelled = true
is_run_cancelled _ = false

abbrev pub is_incomplete_proof : Error → Bool
is_incomplete_proof (incomplete_proof text) = true
is_incomplete_proof _ = false
