-- ===== src/Keys/Layout.antt =====
-- The table and the conversion of device/keyboard.c give the characters of a keyboard with the layout
-- below.
use mmzzos.Base.{
  ℕ, ◌+◌, ◌-◌, ◌<◌, ◌≡◌, refl, Bool, true, false, ◌&&◌, ◌||◌, List, [], ◌∷◌, ◌==◌, ==_iff, leb, ltb,
  if◌then◌else◌, length, get_or,
}
use mmzzos.Base.Bytes.{passes, passes-true}
use mmzzos.Keys.{look_up, capital, convert_to, convert_other, symbols, is_function_key}
use mmzzos.Keys.Codes.{code}
use mmzzos.Keys.Tables.{convert_table, down_rows, up_rows}

-- The keys in rows, each from its first scan code on, as they are and with shift.
abbrev plain_rows : List (ℕ × List ℕ)
plain_rows =
    (
      2,
      b'1' ∷ b'2' ∷ b'3' ∷ b'4' ∷ b'5' ∷ b'6' ∷ b'7' ∷ b'8' ∷ b'9' ∷ b'0' ∷ b'-' ∷ b'=' ∷ b'\x08'
          ∷ [],
    )
    ∷ (
      16,
      b'q' ∷ b'w' ∷ b'e' ∷ b'r' ∷ b't' ∷ b'y' ∷ b'u' ∷ b'i' ∷ b'o' ∷ b'p' ∷ b'[' ∷ b']' ∷ b'\n'
          ∷ [],
    )
    ∷ (30, b'a' ∷ b's' ∷ b'd' ∷ b'f' ∷ b'g' ∷ b'h' ∷ b'j' ∷ b'k' ∷ b'l' ∷ b';' ∷ b'\'' ∷ b'`' ∷ [])
    ∷ (43, b'\\' ∷ b'z' ∷ b'x' ∷ b'c' ∷ b'v' ∷ b'b' ∷ b'n' ∷ b'm' ∷ b',' ∷ b'.' ∷ b'/' ∷ [])
    ∷ (57, b' ' ∷ [])
    ∷ []

abbrev shifted_rows : List (ℕ × List ℕ)
shifted_rows =
    (
      2,
      b'!' ∷ b'@' ∷ b'#' ∷ b'$' ∷ b'%' ∷ b'^' ∷ b'&' ∷ b'*' ∷ b'(' ∷ b')' ∷ b'_' ∷ b'+' ∷ b'\x08'
          ∷ [],
    )
    ∷ (
      16,
      b'Q' ∷ b'W' ∷ b'E' ∷ b'R' ∷ b'T' ∷ b'Y' ∷ b'U' ∷ b'I' ∷ b'O' ∷ b'P' ∷ b'{' ∷ b'}' ∷ b'\n'
          ∷ [],
    )
    ∷ (30, b'A' ∷ b'S' ∷ b'D' ∷ b'F' ∷ b'G' ∷ b'H' ∷ b'J' ∷ b'K' ∷ b'L' ∷ b':' ∷ b'\"' ∷ b'~' ∷ [])
    ∷ (43, b'|' ∷ b'Z' ∷ b'X' ∷ b'C' ∷ b'V' ∷ b'B' ∷ b'N' ∷ b'M' ∷ b'<' ∷ b'>' ∷ b'?' ∷ [])
    ∷ (57, b' ' ∷ [])
    ∷ []

-- The character at a scan code, 255 if there is none.
abbrev pub key_at : List (ℕ × List ℕ) → ℕ → ℕ
key_at [] s = 255
key_at ((start, chars) ∷ rows) s =
    if leb start s && ltb s (start + length chars)
    then get_or chars (s - start) 255
    else key_at rows s

-- Caps lock makes the letters capital, and shift takes the other character of each key.
abbrev pub typed : Bool → Bool → ℕ → ℕ
typed shift caps s =
    let ch = key_at (if shift then shifted_rows else plain_rows) s in
    if caps && (leb b'a' ch && leb ch b'z') then ch - 32 else ch

abbrev agrees : Bool → Bool → ℕ → Bool
agrees shift caps s = convert_to (capital (shift || caps) (look_up shift s)) == typed shift caps s

all_agree : (shift caps : Bool) → passes (agrees shift caps) 256 ≡ true
unfolding passes code look_up capital convert_to convert_other symbols is_function_key convert_table
    down_rows up_rows
all_agree true true = refl
all_agree true false = refl
all_agree false true = refl
all_agree false false = refl

-- For every scan code and every state of shift and caps lock, the key code that the table gives
-- converts to the character of the layout; the codes of released keys and of keys without a character
-- convert to 255.
pub layout_lem :
    (shift caps : Bool) (s : ℕ)
    → s < 256
    → convert_to (capital (shift || caps) (look_up shift s)) ≡ typed shift caps s
layout_lem shift caps s h =
    (==_iff _ _).0 (passes-true (agrees shift caps) 256 s h (all_agree shift caps))
