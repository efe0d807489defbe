-- ===== src/Base/Bytes.antt =====
-- Bits of a byte, and a check of a statement about all small values by evaluation.
use Prim.Native.Nat.{ℕ, zero, suc, ◌-◌, ◌/◌, ◌%◌, ◌^◌, ◌<◌, bit_and, bit_or}
use mathlib.Core.Path.{◌≡◌, refl}
use mathlib.Core.Bool.{Bool, true, false}
use native.Mathlib.Omega.{arith}
use mmzzos.Base.Tests.{◌==◌, if◌then◌else◌}

-- `b >> j & 1`
unfoldable pub bit : ℕ → ℕ → Bool
bit b j = (b / 2 ^ j) % 2 == 1

-- `(uint8_t)(b | (1 << j))`
unfoldable pub set_bit : ℕ → ℕ → ℕ
set_bit b j = bit_or b (2 ^ j) % 256

-- `(uint8_t)(b & ~(1 << j))`
unfoldable pub clear_bit : ℕ → ℕ → ℕ
clear_bit b j = bit_and b (255 - 2 ^ j) % 256

-- Whether `test` passes at each of the `count` smallest numbers.
unfoldable pub passes : (ℕ → Bool) → ℕ → Bool
passes test zero = true
passes test (suc last) = if test last then passes test last else false

pub passes-true :
    (test : ℕ → Bool) (count i : ℕ) → i < count → passes test count ≡ true → test i ≡ true
unfolding passes
passes-true test zero i below all = absurd (omega arith)
passes-true test (suc last) i below all = ground (arith, passes-true test last i)

abbrev same : Bool → Bool → Bool
same true b = b
same false true = false
same false false = true

eq_of_same : (a b : Bool) → same a b ≡ true → a ≡ b
eq_of_same a b h = ground arith

abbrev set_row : ℕ → ℕ → ℕ → Bool
set_row b j k = same (bit (set_bit b j) k) (if j == k then true else bit b k)

abbrev clear_row : ℕ → ℕ → ℕ → Bool
clear_row b j k = same (bit (clear_bit b j) k) (if j == k then false else bit b k)

set_table : passes (λ b. passes (λ j. passes (set_row b j) 8) 8) 256 ≡ true
unfolding passes bit set_bit
set_table = refl

clear_table : passes (λ b. passes (λ j. passes (clear_row b j) 8) 8) 256 ≡ true
unfolding passes bit clear_bit
clear_table = refl

pub bit-set_bit :
    (b j k : ℕ) → b < 256 → j < 8 → k < 8 → bit (set_bit b j) k ≡ (if j == k then true else bit b k)
bit-set_bit b j k hb hj hk =
    let row = passes-true (λ b. passes (λ j. passes (set_row b j) 8) 8) 256 b hb set_table in
    let cell = passes-true (λ j. passes (set_row b j) 8) 8 j hj row in
    eq_of_same _ _ (passes-true (set_row b j) 8 k hk cell)

pub bit-clear_bit :
    (b j k : ℕ)
    → b < 256
    → j < 8
    → k < 8
    → bit (clear_bit b j) k ≡ (if j == k then false else bit b k)
bit-clear_bit b j k hb hj hk =
    let row = passes-true (λ b. passes (λ j. passes (clear_row b j) 8) 8) 256 b hb clear_table in
    let cell = passes-true (λ j. passes (clear_row b j) 8) 8 j hj row in
    eq_of_same _ _ (passes-true (clear_row b j) 8 k hk cell)

pub set_bit-lt : (b j : ℕ) → set_bit b j < 256
unfolding set_bit
set_bit-lt b j = omega arith

pub clear_bit-lt : (b j : ℕ) → clear_bit b j < 256
unfolding clear_bit
clear_bit-lt b j = omega arith

pub bit-zero : (j : ℕ) → bit 0 j ≡ false
unfolding bit
bit-zero j = ground arith
