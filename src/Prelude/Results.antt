-- ===== src/Prelude/Results.antt =====
-- Fallible code: a value or an error, with `do` blocks.
use mathlib.Core.Path.{◌≡◌, refl}
use mathlib.Core.Logic.{◌≢◌}
use mathlib.Core.Bool.{Bool, true, false}
use mathlib.Core.Option.{Option, none, some}

pub data Result {ℓ κ} (E : Type ℓ) (A : Type κ) : Type (ℓ ⊔ κ) where
  ok : A → Result E A
  err : E → Result E A

infixl 5 ◌>>=◌ ◌>>◌
abbrev pub ◌>>=◌ {ℓ κ μ} :
    {E : Type ℓ} {A : Type κ} {B : Type μ} → Result E A → (A → Result E B) → Result E B
ok a >>= f = f a
err e >>= f = err e

abbrev pub ◌>>◌ {ℓ μ} : {E : Type ℓ} {B : Type μ} → Result E (Unit {0}) → Result E B → Result E B
m >> k = m >>= λ _. k

-- `ensure!`.
abbrev pub ensure {ℓ} : {E : Type ℓ} → Bool → E → Result E (Unit {0})
ensure true e = ok tt
ensure false e = err e

abbrev pub ok_or {ℓ κ} : {E : Type ℓ} {A : Type κ} → Option A → E → Result E A
ok_or none e = err e
ok_or (some a) e = ok a

abbrev pub is_ok {ℓ κ} : {E : Type ℓ} {A : Type κ} → Result E A → Bool
is_ok (ok a) = true
is_ok (err e) = false

-- A chain that succeeds passed its first step.
pub >>=-eq-ok {ℓ κ μ} :
    {E : Type ℓ} {A : Type κ} {B : Type μ} (step : Result E A) (next : A → Result E B) {result : B}
    → (step >>= next) ≡ ok result
    → (value : A) × (step ≡ ok value) × (next value ≡ ok result)
>>=-eq-ok (err e) next chain = cc
>>=-eq-ok (ok value) next chain = (value, refl, chain)

pub ok_injective {ℓ κ} :
    {E : Type ℓ} {A : Type κ} {a b : A} → ◌≡◌ {A = Result E A} (ok a) (ok b) → a ≡ b
ok_injective h = cc

pub err≢ok {ℓ κ} : {E : Type ℓ} {A : Type κ} {e : E} {a : A} → ◌≢◌ {A = Result E A} (err e) (ok a)
err≢ok h = cc

pub ok_or-eq-ok {ℓ κ} :
    {E : Type ℓ} {A : Type κ} (found : Option A) (e : E) {a : A}
    → ◌≡◌ {A = Result E A} (ok_or found e) (ok a)
    → found ≡ some a
ok_or-eq-ok none e h = cc
ok_or-eq-ok (some a) e h = cc
