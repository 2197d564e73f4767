-- ===== src/Errs.antt =====
-- Errors as values: `errs.Error` of encore.dev/beta/errs as the endpoints build it, and the result
-- of a Go function that returns `(T, error)`.
use redesigned_disco.Prelude.{String, ◌≡◌, refl}

-- The codes that the service uses.
pub data Code : Type 0 where
  invalid_argument not_found unauthenticated permission_denied failed_precondition : Code
  unavailable internal canceled deadline_exceeded : Code

-- `&errs.Error{Code: ..., Message: ...}`
pub record ApiError : Type 0 where
  pub code : Code
  pub message : String

-- A value, or an error; never both.
pub data Result {ℓ κ} (E : Type ℓ) (A : Type κ) : Type (ℓ ⊔ κ) where
  ok : A → Result E A
  err : E → Result E A

infixl 5 ◌>>=◌
abbrev pub ◌>>=◌ {ℓ κ υ} :
    {E : Type ℓ} {A : Type κ} {B : Type υ} → Result E A → (A → Result E B) → Result E B
ok a >>= f = f a
err e >>= f = err e

abbrev pub api_error {ℓ} : {A : Type ℓ} → Code → String → Result ApiError A
api_error c m = err (record { code = c; message = m })

-- A chain succeeds only where its first step does.
pub bind-ok {ℓ κ υ} :
    {E : Type ℓ} {A : Type κ} {B : Type υ} (m : Result E A) (f : A → Result E B) (b : B)
    → (m >>= f) ≡ ok b
    → (a : A) × (m ≡ ok a) × (f a ≡ ok b)
bind-ok (err e) f b h = cc
bind-ok (ok a) f b h = (a, refl, h)

pub ok-injective {ℓ κ} :
    {E : Type ℓ} {A : Type κ} (a b : A) → ◌≡◌ {A = Result E A} (ok a) (ok b) → a ≡ b
ok-injective a b h = cc
