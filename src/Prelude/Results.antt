-- ===== src/Prelude/Results.antt =====
-- Code that throws: a result is a value or what was thrown, and a `do` block chains results.
use mathlib.Core.Bool.{Bool, true, false}
use mathlib.Core.Path.{◌≡◌, refl}
use mathlib.Core.Logic.{◌⊎◌, inl, inr}

pub data Result {ℓ κ} (E : Type ℓ) (A : Type κ) : Type (ℓ ⊔ κ) where
  ok : A → Result E A
  err : E → Result E A

infixl 5 ◌>>=◌ ◌>>◌
abbrev pub ◌>>=◌ {ℓ κ μ} :
    {E : Type ℓ} {A : Type κ} {B : Type μ} → Result E A → (A → Result E B) → Result E B
ok a >>= f = f a
err e >>= f = err e

abbrev pub ◌>>◌ {ℓ κ} : {E : Type ℓ} {B : Type κ} → Result E (Unit {0}) → Result E B → Result E B
m >> k = m >>= λ _. k

-- `if (!test) throw e`.
abbrev pub require {ℓ} : {E : Type ℓ} → Bool → E → Result E (Unit {0})
require true e = ok tt
require false e = err e

-- What holds of every value that a result may carry.
abbrev pub Always {ℓ κ} : {E : Type ℓ} {A : Type κ} → (A → Type 0) → Result E A → Type 0
Always P (ok a) = P a
Always P (err e) = Unit {0}

pub Result-cases {ℓ κ} :
    {E : Type ℓ} {A : Type κ} (r : Result E A) → ((a : A) × (r ≡ ok a)) ⊎ ((e : E) × (r ≡ err e))
Result-cases (ok a) = inl (a, refl)
Result-cases (err e) = inr (e, refl)

-- What always holds, step by step.
pub Always-bind {ℓ κ μ} :
    {E : Type ℓ} {A : Type κ} {B : Type μ} (P : A → Type 0) (Q : B → Type 0) (m : Result E A)
    (k : A → Result E B)
    → Always P m
    → ((a : A) → P a → Always Q (k a))
    → Always Q (m >>= k)
Always-bind P Q (ok a) k h g = g a h
Always-bind P Q (err e) k h g = tt

pub Always-if {ℓ κ} :
    {E : Type ℓ} {A : Type κ} (P : A → Type 0) (b : Bool) (a : A) (e : E)
    → (b ≡ true → P a)
    → Always P (elim b [ true ↦ ok a | false ↦ err e ])
Always-if P true a e h = h refl
Always-if P false a e h = tt
