-- ===== src/Base/Exception.antt =====
-- What the agent's code raises, and methods that mutate an object and may raise. What was written
-- before a raise stays written, so the state comes back beside the error too.
use Prim.Native.Nat.{ℕ}
use Prim.Native.String.{String}
use mathlib.Core.Path.{◌≡◌, refl}
use mathlib.Core.Logic.{◌⊎◌, inl, inr}
use mathlib.Core.Bool.{Bool, true, false}

-- The wording of messages that the interpreter itself composes is not modelled.
pub data Error : Type 0 where
  security_error : String → Error  -- node_agent.security.NodeSecurityError
  job_conflict_error : String → Error  -- node_agent.jobs.JobConflictError
  http_exception : ℕ → String → Error  -- fastapi.HTTPException(status, detail)
  value_error : String → Error
  type_error : Error
  key_error : Error
  os_error : Error
  timeout_error : Error
  not_implemented_error : Error
  other_error : String → Error  -- any other exception, with its text

pub data Result {ℓ} (A : Type ℓ) : Type ℓ where
  ok : A → Result A
  err : Error → Result A

abbrev pub Exec {ℓ} : Type ℓ → Type ℓ → Type ℓ
Exec S A = S → Result A × S

module _ {ℓ} {S A : Type ℓ} where
  abbrev pub pure : A → Exec S A
  pure a s = (ok a, s)

  abbrev pub raise : Error → Exec S A
  raise e s = (err e, s)

  abbrev pub gets : (S → A) → Exec S A
  gets f s = (ok (f s), s)

  abbrev pub lift : Result A → Exec S A
  lift r s = (r, s)

infixl 5 ◌>>=◌ ◌>>◌
abbrev pub ◌>>=◌ {ℓ} : {S A B : Type ℓ} → Exec S A → (A → Exec S B) → Exec S B
◌>>=◌ m f s = let (r, s') = m s in elim r [ ok a ↦ f a s' | err e ↦ (err e, s') ]

abbrev pub ◌>>◌ {ℓ} : {S A B : Type ℓ} → Exec S A → Exec S B → Exec S B
m >> k = m >>= λ _. k

-- `if test: raise e`
abbrev pub raise_if : {S : Type 0} → Bool → Error → Exec S Unit
raise_if true e s = (err e, s)
raise_if false e s = (ok tt, s)

abbrev pub modify : {S : Type 0} → (S → S) → Exec S Unit
modify f s = (ok tt, f s)

pub Result-cases {ℓ} :
    {A : Type ℓ} (r : Result A) → ((a : A) × (r ≡ ok a)) ⊎ ((e : Error) × (r ≡ err e))
Result-cases (ok a) = inl (a, refl)
Result-cases (err e) = inr (e, refl)

module _ {S : Type 0} (Inv : S → Type 0) where
  -- A method that keeps the invariant, whether it raises or not.
  abbrev pub Keeps : {A : Type 0} → Exec S A → Type 0
  Keeps m = (s : S) → Inv s → Inv (m s).1

  bind_result-Keeps :
      {A B : Type 0} (r : Result A × S) (f : A → Exec S B) (s : S)
      → Inv r.1
      → ((a : A) → Keeps (f a))
      → Inv (((λ (s' : S). r) >>= f) s).1
  bind_result-Keeps (ok a, s') f s i k = k a s' i
  bind_result-Keeps (err e, s') f s i k = i

  pub bind-Keeps :
      {A B : Type 0} (m : Exec S A) (f : A → Exec S B)
      → Keeps m
      → ((a : A) → Keeps (f a))
      → Keeps (m >>= f)
  bind-Keeps m f h k s i = bind_result-Keeps (m s) f s (h s i) k
