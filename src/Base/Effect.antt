-- ===== src/Base/Effect.antt =====
-- What a call of a kernel function does: it returns, it calls `panic`, which never returns, or it
-- does what C leaves undefined, such as an access outside an array.
use mathlib.Core.Path.{◌≡◌, ap, ◌∙◌}

pub data Result {ℓ} (A : Type ℓ) : Type ℓ where
  ok : A → Result A
  panic : Result A
  fault : Result A

infixl 5 ◌>>=◌ ◌>>◌
abbrev pub ◌>>=◌ {ℓ κ} : {A : Type ℓ} {B : Type κ} → Result A → (A → Result B) → Result B
ok a >>= f = f a
panic >>= f = panic
fault >>= f = fault

abbrev pub ◌>>◌ {ℓ} : {B : Type ℓ} → Result (Unit {0}) → Result B → Result B
m >> k = m >>= λ _. k

-- What holds of a result, if the call returns.
abbrev pub Always {ℓ κ} : {A : Type ℓ} → (A → Type κ) → Result A → Type κ
Always P (ok a) = P a
Always P panic = Unit
Always P fault = Unit

pub Always-bind {ℓ κ} :
    {A B : Type ℓ} (P : A → Type κ) (Q : B → Type κ) (m : Result A) (f : A → Result B)
    → Always P m
    → ((a : A) → P a → Always Q (f a))
    → Always Q (m >>= f)
Always-bind P Q (ok a) f h g = g a h
Always-bind P Q panic f h g = tt
Always-bind P Q fault f h g = tt

-- What follows a call that returns.
pub bind_ok {ℓ κ} :
    {A : Type ℓ} {B : Type κ} {m : Result A} {a : A} {r : Result B} (f : A → Result B)
    → m ≡ ok a
    → f a ≡ r
    → (m >>= f) ≡ r
bind_ok f e g = ap (λ m. m >>= f) e ∙ g

-- Nothing follows a call that panics.
pub bind_panic {ℓ κ} :
    {A : Type ℓ} {B : Type κ} {m : Result A} (f : A → Result B) → m ≡ panic → (m >>= f) ≡ panic
bind_panic f e = ap (λ m. m >>= f) e
