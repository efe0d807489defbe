-- ===== src/Shell/Editing.antt =====
-- readline of shell/shell.c against the line editor.
use mmzzos.Base.{
  ℕ, ◌+◌, ◌^◌, ◌<◌, ◌≡◌, refl, ap, ◌∙◌, false, List, [], ◌∷◌, length, All, ◌==◌, ltb, arith,
  Bool-cases, inl, inr, ltb→lt,
}
use mmzzos.Mem.{Memory}
use mmzzos.Shell.{Typing, on_char, read_line, readline}
use mmzzos.Shell.Texts.{IsByte}
use mmzzos.Shell.Lines.{edit, edited, IsLine, Same}
use mmzzos.Shell.Turns.{Holds, on_char-Holds, new_line-IsLine}

-- The loop stops at once in a full buffer.
full-IsLine :
    (m : Memory) (buf count : ℕ) (line left : List ℕ) (t : Typing)
    → ltb (length line) count ≡ false
    → Holds m buf count line t
    → IsLine m buf count
        (record { line = line; left = left })
        (record { memory = t.memory; len = t.len; screen = t.screen; unread = left })
full-IsLine m buf count line left t full h = record {
  len = h.len;
  there = h.there;
  unread = refl;
  ended = rw (ap (λ n. ltb n count) h.len ∙ full) refl;
  inside = h.inside;
}

read_line_lem :
    (m : Memory) (buf count : ℕ) (input line : List ℕ) (t : Typing)
    → buf + count < 2 ^ 32
    → All IsByte input
    → Holds m buf count line t
    → Same m buf count (edited count line input) (read_line buf count input t)
unfolding read_line
read_line_lem m buf count [] line t fits bytes h = elim (Bool-cases (ltb (length line) count)) [
  | inl e ↦ rw (ap (λ n. ltb n count) h.len ∙ e, e) tt
  | inr e ↦ rw (ap (λ n. ltb n count) h.len ∙ e, e) (full-IsLine m buf count line [] t e h)
]
read_line_lem m buf count (ch ∷ input) line t fits bytes h =
    elim (Bool-cases (ltb (length line) count)) [
      | inl e ↦ elim (Bool-cases (ch == 10)) [
        | inl f ↦
            rw (ap (λ n. ltb n count) h.len ∙ e, e, f)
              (new_line-IsLine m buf count line t h input (ltb→lt _ _ e))
        | inr f ↦
            rw (ap (λ n. ltb n count) h.len ∙ e, e, f)
              (read_line_lem m buf count input (edit ch line) (on_char buf ch t) fits bytes.1
                (on_char-Holds m buf count ch line t fits bytes.0 (ltb→lt _ _ e) h))
      ]
      | inr e ↦
          rw (ap (λ n. ltb n count) h.len ∙ e, e) (full-IsLine m buf count line (ch ∷ input) t e h)
    ]

-- readline into a buffer below the last address, on any bytes: it waits for more exactly when the line editor on
-- lists does, and when both end, the length, the bytes in the buffer and the bytes not read are those of the
-- edited line; a 0 stands behind a line that does not fill the buffer, and nothing outside the buffer changes.
pub readline_lem :
    (m : Memory) (buf count : ℕ) (input : List ℕ)
    → buf + count < 2 ^ 32
    → All IsByte input
    → Same m buf count (edited count [] input) (readline m buf count input)
unfolding readline
readline_lem m buf count input fits bytes =
    read_line_lem m buf count input [] (record { memory = m; str = buf; len = 0; screen = [] }) fits
      bytes
      (record {
        str = omega arith;
        len = refl;
        there = tt;
        small = omega arith;
        inside = λ x. ground arith;
      })
