-- ===== src/Digits.antt =====
-- itoa of lib/stdio.c: the digits of an unsigned number, the highest first. The characters that it
-- writes through `*buf` are a list, and its recursion runs on fuel; `none` means that it has not ended.
pub mod Value
mod Tests
use mmzzos.Base.{
  ℕ, zero, suc, ◌+◌, ◌-◌, ◌/◌, ◌%◌, Option, none, some, List, [], ◌∷◌, ◌++◌, ◌==◌, leb,
  if◌then◌else◌,
}

-- `wb<=9?wb+'0':wb-10+'a'`
unfoldable pub digit : ℕ → ℕ
digit wb = if leb wb 9 then wb + 48 else wb - 10 + 97

abbrev pub behind : Option (List ℕ) → ℕ → Option (List ℕ)
behind none c = none
behind (some cs) c = some (cs ++ c ∷ [])

unfoldable pub itoa : ℕ → ℕ → ℕ → Option (List ℕ)
itoa zero value base = none
itoa (suc fuel) value base =
    let higher = itoa fuel (value / base) base in
    let wb = value % base in
    if value == 0
    then some (48 ∷ [])
    else if value / base == 0
    then some (digit wb ∷ [])
    else behind higher (digit wb)
