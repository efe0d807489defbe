-- ===== src/Digits/Tests.antt =====
-- Numbers that itoa of lib/stdio.c prints.
use mmzzos.Base.{◌≡◌, refl, [], ◌∷◌, some}
use mmzzos.Digits.{itoa, digit}

itoa_hex : itoa 32 48879 16 ≡ some (98 ∷ 101 ∷ 101 ∷ 102 ∷ [])
unfolding itoa digit
itoa_hex = refl

itoa_zero : itoa 32 0 10 ≡ some (48 ∷ [])
unfolding itoa
itoa_zero = refl
