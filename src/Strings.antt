-- ===== src/Strings.antt =====
-- strlen, strcmp, strchr and strip of lib/string.c on the memory of `Mem`. A loop over a string runs on
-- fuel, and `none` means that it has not ended. A character is a signed byte.
pub mod Text
pub mod Order
mod Tests
use mmzzos.Base.{
  ℕ, zero, suc, ◌+◌, ◌%◌, ◌^◌, Bool, true, false, ◌&&◌, Option, none, some, ◌==◌, ltb,
  if◌then◌else◌, not,
}
use mmzzos.Mem.{Memory, forward, Sign, less, equal, greater}

unfoldable pub strlen_from : ℕ → Memory → ℕ → ℕ → Option ℕ
strlen_from zero m str len = none
strlen_from (suc fuel) m str len =
    let rest = strlen_from fuel m (forward 1 str) ((len + 1) % 2 ^ 32) in
    if not (m str == 0) then rest else some len

unfoldable pub strlen : ℕ → Memory → ℕ → Option ℕ
unfolding strlen_from
strlen fuel m str = strlen_from fuel m str 0

-- `*s0<*s1` on signed characters
unfoldable pub char_less : ℕ → ℕ → Bool
char_less a b = ltb ((a + 128) % 256) ((b + 128) % 256)

unfoldable pub strcmp : ℕ → Memory → ℕ → ℕ → Option Sign
unfolding char_less
strcmp zero m s0 s1 = none
strcmp (suc fuel) m s0 s1 =
    let rest = strcmp fuel m (forward 1 s0) (forward 1 s1) in
    if not (m s0 == 0) && not (m s1 == 0)
    then if char_less (m s0) (m s1)
      then some less
      else if char_less (m s1) (m s0)
      then some greater
      else rest
    else if m s0 == 0 && m s1 == 0
    then some equal
    else if not (m s0 == 0)
    then some greater
    else some less

-- The address found, or `NULL`. `ch` is a character from 1 to 127.
unfoldable pub strchr : ℕ → Memory → ℕ → ℕ → Option ℕ
strchr zero m str ch = none
strchr (suc fuel) m str ch =
    let rest = strchr fuel m (forward 1 str) ch in
    if not (m str == 0) then (if m str == ch then some str else rest) else some 0

unfoldable pub strip : ℕ → Memory → ℕ → Option ℕ
strip zero m str = none
strip (suc fuel) m str =
    let rest = strip fuel m (forward 1 str) in
    if not (m str == 0) && m str == 32 then rest else some str
