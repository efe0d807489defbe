-- ===== src/Shell/Lines.antt =====
-- The line that readline of shell/shell.c edits, as a list.
use mmzzos.Base.{
  ℕ, ◌+◌, ◌-◌, ◌≡◌, Option, none, some, List, [], ◌∷◌, ◌++◌, length, take, ◌==◌, ltb, leb,
  if◌then◌else◌, ◌&&◌,
}
use mmzzos.Mem.{Memory}
use mmzzos.Keys.Codes.{code, code_ctrl_l, code_ctrl_u}
use mmzzos.Shell.{Line}
use mmzzos.Shell.Texts.{Spans}

-- The line after one more character: control-U empties it, control-L leaves it, a back space takes the last
-- character away.
abbrev pub edit : ℕ → List ℕ → List ℕ
edit ch line =
    if ch == code code_ctrl_l
    then line
    else if ch == code code_ctrl_u
    then []
    else if ch == 8
    then take (length line - 1) line
    else line ++ ch ∷ []

-- The finished line and the characters not read, once the line is full or a line feed comes.
pub record Typed : Type 0 where
  pub line : List ℕ
  pub left : List ℕ

abbrev pub edited : ℕ → List ℕ → List ℕ → Option Typed
edited count line [] =
    if ltb (length line) count then none else some (record { line = line; left = [] })
edited count line (ch ∷ input) =
    let rest = edited count (edit ch line) input in
    if ltb (length line) count
    then if ch == 10 then some (record { line = line; left = input }) else rest
    else some (record { line = line; left = ch ∷ input })

-- The bytes from `buf` on are the line, a 0 follows it when it is not full, and nothing outside the buffer differs
-- from `m`.
pub record IsLine (m : Memory) (buf count : ℕ) (typed : Typed) (out : Line) : Type 0 where
  pub len : out.len ≡ length typed.line
  pub there : Spans out.memory buf typed.line
  pub unread : out.unread ≡ typed.left
  pub ended :
      out.memory (buf + out.len) ≡ (if ltb out.len count then 0 else out.memory (buf + out.len))
  pub inside :
      (x : ℕ) → out.memory x ≡ (if leb buf x && ltb x (buf + count) then out.memory x else m x)

-- Both wait for more, or both end with the same line.
abbrev pub Same : Memory → ℕ → ℕ → Option Typed → Option Line → Type 0
Same m buf count none none = Unit
Same m buf count (some typed) (some out) = IsLine m buf count typed out
Same m buf count _ _ = ⊥
