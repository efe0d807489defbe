-- ===== src/Keys.antt =====
-- The conversion of key codes in device/keyboard.c: `KeyBoardConvertTo`, `KeyBoardFunction` and
-- `IsFunctionKey`. A key code is a `uint16_t`; 255 is the -1 of a `uint8_t`.
pub mod Codes
pub mod Tables
pub mod Layout
mod Tests
use mmzzos.Base.{
  ℕ, ◌+◌, ◌-◌, ◌/◌, ◌%◌, Bool, true, false, ◌&&◌, List, [], ◌∷◌, ◌==◌, leb, ltb, if◌then◌else◌, not,
  get_or, bit_or,
}
use mmzzos.Keys.Codes.{
  code, code_enter_down, code_backspace_down, code_a_down, code_z_down, code_c_down, code_l_down,
  code_u_down, code_0_down, code_9_down, code_ctrl_begin, code_ctrl_end, code_ctrl_down,
  code_ctrl_z, code_ctrl_c, code_ctrl_l, code_ctrl_u, code_space_down, code_tilde_down,
  code_backtick_down, code_bang_down, code_at_down, code_hash_down, code_dollar_down, code_mod_down,
  code_caret_down, code_and_down, code_star_down, code_left_parenthesis_down,
  code_right_parenthesis_down, code_underscore_down, code_sub_down, code_add_down, code_equ_down,
  code_left_curly_brace_down, code_left_square_bracket_down, code_right_curly_brace_down,
  code_right_square_bracket_down, code_or_down, code_backslash_down, code_colon_down,
  code_semicolon_down, code_double_quotation_down, code_single_quotation_down, code_comma_down,
  code_less_down, code_dot_down, code_great_down, code_question_down, code_forward_slash_down,
}
use mmzzos.Keys.Tables.{no_code, convert_table}

unfoldable pub is_function_key : ℕ → Bool
unfolding code
is_function_key key = ltb (code code_ctrl_begin) key && ltb key (code code_ctrl_end)

-- The `switch` over the other characters.
unfoldable pub symbols : List (ℕ × ℕ)
unfolding code
symbols =
    (code code_space_down, b' ')
    ∷ (code code_tilde_down, b'~')
    ∷ (code code_backtick_down, b'`')
    ∷ (code code_bang_down, b'!')
    ∷ (code code_at_down, b'@')
    ∷ (code code_hash_down, b'#')
    ∷ (code code_dollar_down, b'$')
    ∷ (code code_mod_down, b'%')
    ∷ (code code_caret_down, b'^')
    ∷ (code code_and_down, b'&')
    ∷ (code code_star_down, b'*')
    ∷ (code code_left_parenthesis_down, b'(')
    ∷ (code code_right_parenthesis_down, b')')
    ∷ (code code_underscore_down, b'_')
    ∷ (code code_sub_down, b'-')
    ∷ (code code_add_down, b'+')
    ∷ (code code_equ_down, b'=')
    ∷ (code code_left_curly_brace_down, b'{')
    ∷ (code code_left_square_bracket_down, b'[')
    ∷ (code code_right_curly_brace_down, b'}')
    ∷ (code code_right_square_bracket_down, b']')
    ∷ (code code_or_down, b'|')
    ∷ (code code_backslash_down, b'\\')
    ∷ (code code_colon_down, b':')
    ∷ (code code_semicolon_down, b';')
    ∷ (code code_double_quotation_down, b'\"')
    ∷ (code code_single_quotation_down, b'\'')
    ∷ (code code_comma_down, b',')
    ∷ (code code_less_down, b'<')
    ∷ (code code_dot_down, b'.')
    ∷ (code code_great_down, b'>')
    ∷ (code code_question_down, b'?')
    ∷ (code code_forward_slash_down, b'/')
    ∷ []

-- `decode` from the table, by the row of the scan code and the column of the shift key.
unfoldable pub look_up : Bool → ℕ → ℕ
look_up shift scancode =
    let (plain, shifted) = get_or convert_table scancode (no_code, no_code) in
    if shift then shifted else plain

-- `if(KeyBoardShift||KeyBoardCapsLock)`: the highest bit marks a capital letter.
unfoldable pub capital : Bool → ℕ → ℕ
unfolding code
capital raise decode =
    if raise && (leb (code code_a_down) decode && leb decode (code code_z_down))
    then bit_or decode 32768
    else decode

unfoldable pub convert_other : List (ℕ × ℕ) → ℕ → ℕ
convert_other [] key = 255
convert_other ((k, ch) ∷ rest) key =
    let other = convert_other rest key in if key == k then ch else other

-- `codeE` is the code without its highest bit, the mark of a capital letter.
unfoldable pub convert_to : ℕ → ℕ
unfolding code is_function_key convert_other symbols
convert_to key =
    let letter = key % 32768 in
    if is_function_key key
    then key % 256
    else if key == code code_enter_down
    then b'\n'
    else if key == code code_backspace_down
    then 8
    else if leb (code code_a_down) letter && leb letter (code code_z_down)
    then if not (key / 32768 % 2 == 0)
      then letter - code code_a_down + b'A'
      else key - code code_a_down + b'a'
    else if leb (code code_0_down) key && leb key (code code_9_down)
    then key - code code_0_down + b'0'
    else convert_other symbols key

-- `KeyBoardFunction(code0,code1)`
unfoldable pub keyboard_function : ℕ → ℕ → ℕ
unfolding code
keyboard_function code0 code1 =
    if code0 == no_code
    then code1
    else if not (code0 == code code_ctrl_down)
    then code1
    else if code1 == code code_z_down
    then code code_ctrl_z
    else if code1 == code code_c_down
    then code code_ctrl_c
    else if code1 == code code_l_down
    then code code_ctrl_l
    else if code1 == code code_u_down
    then code code_ctrl_u
    else code1
