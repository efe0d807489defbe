-- ===== src/Base/Results.antt =====
-- How a kernel routine ends: with a value, in the failed `ASSERT` or `PANIC` that stops the machine
-- (lib/kernel/assert.c), or in an access outside the storage that the model knows.
use mathlib.Core.Path.{◌≡◌, refl, ap}
use mathlib.Core.Bool.{Bool, true, false}
use mathlib.Core.Option.{Option, none, some}

pub data Result {ℓ} (V : Type ℓ) : Type ℓ where
  panic fault : Result V
  ok : V → Result V

infixl 5 ◌>>=◌
abbrev pub ◌>>=◌ {ℓ κ} : {V : Type ℓ} {W : Type κ} → Result V → (V → Result W) → Result W
panic >>= next = panic
fault >>= next = fault
ok value >>= next = next value

-- `ASSERT(b)`
abbrev pub assert : Bool → Result (Unit {0})
assert false = panic
assert true = ok tt

infixl 5 ◌>>◌
abbrev pub ◌>>◌ {ℓ} : {W : Type ℓ} → Result (Unit {0}) → Result W → Result W
first >> next = first >>= λ _. next

-- A read through a pointer that must be inside its storage.
abbrev pub from_option {ℓ} : {A : Type ℓ} → Option A → Result A
from_option none = fault
from_option (some a) = ok a

-- `P` holds of the value, and there is one.
abbrev pub Ensures {ℓ} : {A : Type ℓ} → (A → Type 0) → Result A → Type 0
Ensures P (ok a) = P a
Ensures P panic = ⊥
Ensures P fault = ⊥

-- The value that a result ensures.
pub returned {ℓ} :
    {A : Type ℓ} (P : A → Type 0) (r : Result A) → Ensures P r → (a : A) × (r ≡ ok a) × P a
returned P (ok a) h = (a, refl, h)
returned P panic h = absurd h
returned P fault h = absurd h

value_or {ℓ} : {A : Type ℓ} → A → Result A → A
value_or d (ok a) = a
value_or d panic = d
value_or d fault = d

pub ok_inj {ℓ} : {A : Type ℓ} (a b : A) → ok a ≡ ok b → a ≡ b
unfolding value_or
ok_inj a b e = ap (value_or a) e
