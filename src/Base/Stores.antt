-- ===== src/Base/Stores.antt =====
-- A store that is a function of an index or an address, and one write to it.
use Prim.Native.Nat.{ℕ}
use mathlib.Core.Path.{◌≡◌}
use mathlib.Core.Logic.{◌≢◌}
use native.Mathlib.Omega.{arith}
unfoldable use native.Mathlib.Decide.{ℕ_discrete}
use mathlib.Core.Bool.{true, false}
use mmzzos.Base.Tests.{◌==◌, if◌then◌else◌}

module _ {ℓ} {A : Type ℓ} where
  abbrev pub update : (ℕ → A) → ℕ → A → ℕ → A
  update f i v j = if j == i then v else f j

  pub update_self : (f : ℕ → A) (i : ℕ) (v : A) → update f i v i ≡ v
  update_self f i v = ground arith

  pub update_ne : (f : ℕ → A) (i j : ℕ) (v : A) → j ≢ i → update f i v j ≡ f j
  update_ne f i j v ne = ground arith

  -- What holds of the new value, and of each old value elsewhere, holds of every value after the write.
  pub update_elim {κ} :
      (P : A → Type κ) (f : ℕ → A) (i j : ℕ) (v : A)
      → (j ≡ i → P v)
      → (j ≢ i → P (f j))
      → P (update f i v j)
  update_elim P f i j v here there = elim (ℕ_discrete j i) [
    | yes e ↦ let t : (j == i) ≡ true = ground arith in rw t (here e)
    | no ne ↦ let t : (j == i) ≡ false = ground arith in rw t (there ne)
  ]
