-- ===== src/Shell.antt =====
-- readline and CmdParse of shell/shell.c, on the memory of `Mem`. The bytes that the system call read hands
-- over are a list, and `none` means that readline still waits for the next one, or that the fuel of CmdParse
-- has run out.
mod Texts
mod Words
mod Runs
mod Parse
mod Lines
mod Turns
mod Editing
mod Tests
use mmzzos.Base.{
  ℕ, zero, suc, ◌+◌, ◌-◌, Bool, true, false, ◌&&◌, not, Option, none, some, List, [], ◌∷◌, ◌++◌,
  length, set, ◌==◌, ltb, if◌then◌else◌,
}
use mmzzos.Mem.{Memory, forward, store_byte}
use mmzzos.Keys.Codes.{code, code_ctrl_l, code_ctrl_u}

-- What the shell writes to the console: a character, `clear()`, the prompt of shellTipShow, and the string in
-- memory that `printf("%s",buf)` prints.
pub data Output : Type 0 where
  character : ℕ → Output
  clear tip : Output
  print : Memory → ℕ → Output

-- The locals of readline, the memory and what was written.
pub record Typing : Type 0 where
  pub memory : Memory
  pub str : ℕ
  pub len : ℕ
  pub screen : List Output

-- The length that readline returns with the memory, the screen and the bytes not read.
pub record Line : Type 0 where
  pub memory : Memory
  pub len : ℕ
  pub screen : List Output
  pub unread : List ℕ

-- `while(len)putchar('\b'),--len`
unfoldable pub rub_out : ℕ → List Output → List Output
rub_out zero screen = screen
rub_out (suc len) screen = rub_out len (screen ++ character 8 ∷ [])

unfoldable pub clear_screen : ℕ → Typing → Typing
unfolding store_byte
clear_screen buf t =
    let m = store_byte t.memory t.str 0 in
    record {
      memory = m;
      str = t.str;
      len = t.len;
      screen = t.screen ++ clear ∷ tip ∷ print m buf ∷ [];
    }

unfoldable pub clear_line : ℕ → Typing → Typing
clear_line buf t = record { memory = t.memory; str = buf; len = 0; screen = rub_out t.len t.screen }

unfoldable pub new_line : List ℕ → Typing → Line
new_line unread t = record {
  memory = store_byte t.memory t.str 0;
  len = t.len;
  screen = t.screen ++ character 10 ∷ [];
  unread = unread;
}

-- `--str` of a pointer behind the start of the buffer
unfoldable pub back_space : Typing → Typing
back_space t = if t.len == 0 then t else record {
  memory = t.memory;
  str = t.str - 1;
  len = t.len - 1;
  screen = t.screen ++ character 8 ∷ [];
}

unfoldable pub type_char : ℕ → Typing → Typing
unfolding forward
type_char ch t = record {
  memory = store_byte t.memory t.str ch;
  str = forward 1 t.str;
  len = t.len + 1;
  screen = t.screen ++ character ch ∷ [];
}

-- What one turn of the loop does with a character that does not end the line.
unfoldable pub on_char : ℕ → ℕ → Typing → Typing
unfolding clear_screen clear_line back_space type_char
on_char buf ch t =
    if ch == code code_ctrl_l
    then clear_screen buf t
    else if ch == code code_ctrl_u
    then clear_line buf t
    else if ch == 8
    then back_space t
    else type_char ch t

unfoldable pub read_line : ℕ → ℕ → List ℕ → Typing → Option Line
unfolding on_char new_line
read_line buf count [] t =
    if ltb t.len count
    then none
    else some (record { memory = t.memory; len = t.len; screen = t.screen; unread = [] })
read_line buf count (ch ∷ input) t =
    let rest = read_line buf count input (on_char buf ch t) in
    if ltb t.len count
    then if ch == 10 then some (new_line input t) else rest
    else some (record { memory = t.memory; len = t.len; screen = t.screen; unread = ch ∷ input })

unfoldable pub readline : Memory → ℕ → ℕ → List ℕ → Option Line
unfolding read_line
readline m buf count input =
    read_line buf count input (record { memory = m; str = buf; len = 0; screen = [] })

-- What CmdParse leaves: the memory, `cmd_argv` and the result, where `none` is -1.
pub record Parsed : Type 0 where
  pub memory : Memory
  pub argv : List ℕ
  pub count : Option ℕ

-- `CMD_MAX_ARGUMENT_CNT`
abbrev pub cmd_max_argument_cnt : ℕ
cmd_max_argument_cnt = 32

-- `for(int i=0;i<CMD_MAX_ARGUMENT_CNT;++i)cmd_argv[i]=0`
unfoldable pub clear_arguments : ℕ → ℕ → List ℕ → List ℕ
clear_arguments zero i argv = argv
clear_arguments (suc left) i argv = clear_arguments left (i + 1) (set argv i 0)

-- `while(*buf!=flag&&*buf)++buf`
unfoldable pub skip_word : ℕ → Memory → ℕ → ℕ → Option ℕ
unfolding forward
skip_word zero m flag buf = none
skip_word (suc fuel) m flag buf =
    let rest = skip_word fuel m flag (forward 1 buf) in
    if not (m buf == flag) && not (m buf == 0) then rest else some buf

unfoldable pub after_word : Option ℕ → (ℕ → Option Parsed) → Option Parsed
after_word none next = none
after_word (some e) next = next e

unfoldable pub parse_from : ℕ → Memory → ℕ → List ℕ → ℕ → ℕ → Option Parsed
unfolding forward store_byte skip_word after_word
parse_from zero m flag argv cnt buf = none
parse_from (suc fuel) m flag argv cnt buf =
    let skip = parse_from fuel m flag argv cnt (forward 1 buf) in
    let cut : ℕ → Option Parsed = λ e.
      let next =
        parse_from fuel (store_byte m e 0) flag (set argv cnt buf) (cnt + 1) (forward 1 e) in
      let last = parse_from fuel m flag (set argv cnt buf) (cnt + 1) e in
      if not (m e == 0) then next else last in
    if m buf == 0
    then some (record { memory = m; argv = argv; count = some cnt })
    else if m buf == flag
    then skip
    else if cnt == cmd_max_argument_cnt
    then some (record { memory = m; argv = argv; count = none })
    else after_word (skip_word fuel m flag buf) cut

unfoldable pub cmd_parse : ℕ → Memory → ℕ → ℕ → List ℕ → Option Parsed
unfolding parse_from clear_arguments
cmd_parse fuel m cmd_buf flag argv =
    parse_from fuel m flag (clear_arguments cmd_max_argument_cnt 0 argv) 0 cmd_buf
