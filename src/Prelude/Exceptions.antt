-- ===== src/Prelude/Exceptions.antt =====
-- What a C++ function returns or throws. `bad_dereference` stands for reading an empty optional, which
-- the language leaves undefined; the other failures are the exception types of the source.
use mathlib.Core.Path.{◌≡◌}

pub data Failure : Type 0 where
  out_of_range logic_error invalid_argument bad_dereference bad_function_call : Failure

pub data Result {ℓ} (A : Type ℓ) : Type ℓ where
  ok : A → Result A
  err : Failure → Result A

infixl 5 ◌>>=◌
abbrev pub ◌>>=◌ {ℓ κ} : {A : Type ℓ} {B : Type κ} → Result A → (A → Result B) → Result B
ok a >>= f = f a
err e >>= f = err e

-- The call returns normally, and its value has the property.
abbrev pub Returns {ℓ κ} : {A : Type ℓ} → (A → Type κ) → Result A → Type (ℓ ⊔ κ)
Returns {A} P r = (a : A) × (r ≡ ok a) × P a

pub >>=-Returns {ℓ κ μ ν} :
    {A : Type ℓ} {B : Type κ} {P : A → Type μ} {Q : B → Type ν} (r : Result A) (f : A → Result B)
    → Returns P r
    → ((a : A) → P a → Returns Q (f a))
    → Returns Q (r >>= f)
>>=-Returns r f (a, e, p) next = rw e (next a p)

pub weaken_Returns {ℓ κ μ} :
    {A : Type ℓ} {P : A → Type κ} {Q : A → Type μ} {r : Result A}
    → ((a : A) → P a → Q a)
    → Returns P r
    → Returns Q r
weaken_Returns f (a, e, p) = (a, e, f a p)
