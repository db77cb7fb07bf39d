-- ===== src/Common/Errors.antt =====
-- A Go `error`, as far as the program looks into one: what `errors.Is` answers for the two context
-- errors, and what `errors.As` finds for `net.Error` (its `Timeout()`). Wrapping by `%w` keeps all
-- three. The type of outcomes with an error is here too.
use mathlib.Core.Path.{◌≡◌, refl}
use mathlib.Core.Logic.{◌⊎◌, inl, inr}
use native.Mathlib.Omega.{arith}
use mathlib.Core.Bool.{Bool}
use mathlib.Core.Option.{Option}

pub record GoError : Type 0 where
  pub deadline_exceeded : Bool
  pub canceled : Bool
  pub net_error : Option Bool

-- A result or an error of type `E`.
pub data Result {ℓ κ} (E : Type κ) (A : Type ℓ) : Type (ℓ ⊔ κ) where
  ok : A → Result E A
  err : E → Result E A

abbrev pub bind {ℓ κ μ} :
    {E : Type κ} {A : Type ℓ} {B : Type μ} → Result E A → (A → Result E B) → Result E B
bind (ok a) f = f a
bind (err e) f = err e

pub bind-ok {ℓ κ μ} :
    {E : Type κ} {A : Type ℓ} {B : Type μ} (r : Result E A) (f : A → Result E B) {b : B}
    → bind r f ≡ ok b
    → (a : A) × (r ≡ ok a) × (f a ≡ ok b)
bind-ok (ok a) f h = (a, refl, h)
bind-ok (err e) f h = absurd (ground (arith, h))

pub ok_inj {ℓ κ} : {E : Type κ} {A : Type ℓ} {a b : A} → ◌≡◌ {A = Result E A} (ok a) (ok b) → a ≡ b
ok_inj h = ground (arith, h)

pub bind-err {ℓ κ μ} :
    {E : Type κ} {A : Type ℓ} {B : Type μ} (r : Result E A) (f : A → Result E B) {e : E}
    → bind r f ≡ err e
    → (r ≡ err e) ⊎ ((a : A) × (r ≡ ok a) × (f a ≡ err e))
bind-err (ok a) f h = inr (a, refl, h)
bind-err (err e) f h = inl (ground (arith, h))

pub err_inj {ℓ κ} :
    {E : Type κ} {A : Type ℓ} {a b : E} → ◌≡◌ {A = Result E A} (err a) (err b) → a ≡ b
err_inj h = ground (arith, h)

-- To split on a computed outcome and keep the equation.
pub Result-cases {ℓ κ} :
    {E : Type κ} {A : Type ℓ} (r : Result E A) → ((e : E) × (r ≡ err e)) ⊎ ((a : A) × (r ≡ ok a))
Result-cases (err e) = inl (e, refl)
Result-cases (ok a) = inr (a, refl)
