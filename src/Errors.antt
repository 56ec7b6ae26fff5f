-- ===== src/Errors.antt =====
-- procureguard/domain/errors.py: the exceptions, a result that carries one, and state with
-- exceptions. The messages and contexts of exceptions are not modelled, only their classes;
-- `builtin` stands for the exceptions of Python and its libraries.
pub mod Chain
use procurement_automation.Prelude.{Bool, true, false}

pub data Error : Type 0 where
  procure_guard domain_invariant unsafe_transition not_found conflict validation : Error
  authorization authentication policy_violation security_quarantine sealed_bid : Error
  external_service model_output unit_conversion currency_conversion builtin : Error

pub data Result {ℓ} (A : Type ℓ) : Type ℓ where
  ok : A → Result A
  err : Error → Result A

-- `except E` also catches the subclasses of `E`: the classes that derive from `ValidationError`.
unfoldable pub is_validation : Error → Bool
is_validation Error.validation = true
is_validation Error.unit_conversion = true
is_validation Error.currency_conversion = true
is_validation _ = false

-- A method that changes an object of type `S`. What it wrote before it raised stays written, so
-- the state comes back beside an error too.
abbrev pub Action : Type 0 → Type 0 → Type 0
Action S A = S → Result A × S

module _ {S A : Type 0} where
  abbrev pub pure : A → Action S A
  pure a s = (ok a, s)

  abbrev pub raise : Error → Action S A
  raise e s = (err e, s)

  abbrev pub gets : (S → A) → Action S A
  gets f s = (ok (f s), s)

abbrev pub raise_if : {S : Type 0} → Bool → Error → Action S (Unit {0})
raise_if true e s = (err e, s)
raise_if false e s = (ok tt, s)

abbrev pub modify : {S : Type 0} → (S → S) → Action S (Unit {0})
modify f s = (ok tt, f s)

abbrev pub continue : {S A B : Type 0} → Result A → (A → Action S B) → Action S B
continue (ok a) f s = f a s
continue (err e) f s = (err e, s)

infixl 5 ◌>>=◌ ◌>>◌
abbrev pub ◌>>=◌ : {S A B : Type 0} → Action S A → (A → Action S B) → Action S B
◌>>=◌ m f s = let (r, s') = m s in continue r f s'

abbrev pub ◌>>◌ : {S A B : Type 0} → Action S A → Action S B → Action S B
m >> k = m >>= λ _. k
