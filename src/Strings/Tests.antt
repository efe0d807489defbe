-- ===== src/Strings/Tests.antt =====
-- Two strings in memory, and the theorems on strlen, strip, strcmp and strchr applied to them.
use mmzzos.Base.{ℕ, refl, List, [], ◌∷◌, ◌==◌, if◌then◌else◌, arith}
use mmzzos.Mem.{Memory}
use mmzzos.Strings.Text.{IsText}

-- " a" at 20 and " b" at 30
abbrev memory : Memory
memory x =
    if x == 20
    then 32
    else if x == 21
    then 97
    else if x == 30
    then 32
    else if x == 31
    then 98
    else 0

abbrev one : List ℕ
one = 32 ∷ 97 ∷ []

abbrev two : List ℕ
two = 32 ∷ 98 ∷ []

first-IsText : IsText memory 20 (32 ∷ 97 ∷ [])
first-IsText = record {
  inside = omega arith;
  chars = (refl, omega arith, (refl, omega arith, refl));
}

second-IsText : IsText memory 30 (32 ∷ 98 ∷ [])
second-IsText = record {
  inside = omega arith;
  chars = (refl, omega arith, (refl, omega arith, refl));
}
