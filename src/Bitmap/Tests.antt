-- ===== src/Bitmap/Tests.antt =====
-- The bit map at concrete inputs, and the theorems applied there.
use mmzzos.Base.{◌≡◌, refl, some, none, [], ◌∷◌, arith, ok, Ensures}
use mmzzos.Base.Bytes.{bit}
use mmzzos.Bitmap.{BitMap, allocate, IsValid, bit_at}
use mmzzos.Bitmap.Search.{First, allocate-First}

-- bits 0, 1, 2 and 12 are set
abbrev sample : BitMap
sample = record { len = 2; bits = 7 ∷ 16 ∷ [] }

sample-IsValid : IsValid sample
sample-IsValid = omega arith

allocate_nine : allocate sample 9 ≡ ok (some 3)
unfolding allocate bit
allocate_nine = refl

allocate_ten : allocate sample 10 ≡ ok none
unfolding allocate bit
allocate_ten = refl

allocate-First_example : Ensures (First (bit_at sample) 16 9) (allocate sample 9)
allocate-First_example = allocate-First sample 9 sample-IsValid (omega arith)
