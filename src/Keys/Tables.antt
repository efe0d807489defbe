-- ===== src/Keys/Tables.antt =====
-- `ScanCodeConvertTable` of device/keyboard.c, in two halves. A row has the key code without and with
-- shift; -1 is read as a `uint16_t`.
use mmzzos.Base.{ℕ, List, ◌∷◌, ◌++◌, replicate}
use mmzzos.Keys.Codes.{
  KeyCode, code, code_0_down, code_0_up, code_1_down, code_1_up, code_2_down, code_2_up,
  code_3_down, code_3_up, code_4_down, code_4_up, code_5_down, code_5_up, code_6_down, code_6_up,
  code_7_down, code_7_up, code_8_down, code_8_up, code_9_down, code_9_up, code_a_down, code_a_up,
  code_add_down, code_add_up, code_and_down, code_and_up, code_at_down, code_at_up, code_b_down,
  code_b_up, code_backslash_down, code_backslash_up, code_backspace_down, code_backspace_up,
  code_backtick_down, code_backtick_up, code_bang_down, code_bang_up, code_c_down, code_c_up,
  code_caps_lock_down, code_caps_lock_up, code_caret_down, code_caret_up, code_colon_down,
  code_colon_up, code_comma_down, code_comma_up, code_ctrl_down, code_ctrl_up, code_d_down,
  code_d_up, code_dollar_down, code_dollar_up, code_dot_down, code_dot_up,
  code_double_quotation_down, code_double_quotation_up, code_e_down, code_e_up, code_enter_down,
  code_enter_up, code_equ_down, code_equ_up, code_esc_down, code_esc_up, code_f_down, code_f_up,
  code_forward_slash_down, code_forward_slash_up, code_g_down, code_g_up, code_great_down,
  code_great_up, code_h_down, code_h_up, code_hash_down, code_hash_up, code_i_down, code_i_up,
  code_j_down, code_j_up, code_k_down, code_k_up, code_l_down, code_l_up,
  code_left_curly_brace_down, code_left_curly_brace_up, code_left_parenthesis_down,
  code_left_parenthesis_up, code_left_square_bracket_down, code_left_square_bracket_up,
  code_less_down, code_less_up, code_m_down, code_m_up, code_mod_down, code_mod_up, code_n_down,
  code_n_up, code_o_down, code_o_up, code_or_down, code_or_up, code_p_down, code_p_up, code_q_down,
  code_q_up, code_question_down, code_question_up, code_r_down, code_r_up,
  code_right_curly_brace_down, code_right_curly_brace_up, code_right_parenthesis_down,
  code_right_parenthesis_up, code_right_square_bracket_down, code_right_square_bracket_up,
  code_s_down, code_s_up, code_semicolon_down, code_semicolon_up, code_shift_down, code_shift_up,
  code_single_quotation_down, code_single_quotation_up, code_space_down, code_space_up,
  code_star_down, code_star_up, code_sub_down, code_sub_up, code_t_down, code_t_up, code_tab_down,
  code_tab_up, code_tilde_down, code_tilde_up, code_u_down, code_u_up, code_underscore_down,
  code_underscore_up, code_v_down, code_v_up, code_w_down, code_w_up, code_x_down, code_x_up,
  code_y_down, code_y_up, code_z_down, code_z_up,
}

abbrev pub no_code : ℕ
no_code = 65535

abbrev row : KeyCode → KeyCode → ℕ × ℕ
row plain shifted = (code plain, code shifted)

abbrev blank : ℕ × ℕ
blank = (no_code, no_code)

-- The scan codes 0x00 to 0x7f: a key goes down.
unfoldable pub down_rows : List (ℕ × ℕ)
unfolding code
down_rows =
    blank
      ∷ row code_esc_down code_esc_down
      ∷ row code_1_down code_bang_down
      ∷ row code_2_down code_at_down
      ∷ row code_3_down code_hash_down
      ∷ row code_4_down code_dollar_down
      ∷ row code_5_down code_mod_down
      ∷ row code_6_down code_caret_down
      ∷ row code_7_down code_and_down
      ∷ row code_8_down code_star_down
      ∷ row code_9_down code_left_parenthesis_down
      ∷ row code_0_down code_right_parenthesis_down
      ∷ row code_sub_down code_underscore_down
      ∷ row code_equ_down code_add_down
      ∷ row code_backspace_down code_backspace_down
      ∷ row code_tab_down code_tab_down
      ∷ row code_q_down code_q_down
      ∷ row code_w_down code_w_down
      ∷ row code_e_down code_e_down
      ∷ row code_r_down code_r_down
      ∷ row code_t_down code_t_down
      ∷ row code_y_down code_y_down
      ∷ row code_u_down code_u_down
      ∷ row code_i_down code_i_down
      ∷ row code_o_down code_o_down
      ∷ row code_p_down code_p_down
      ∷ row code_left_square_bracket_down code_left_curly_brace_down
      ∷ row code_right_square_bracket_down code_right_curly_brace_down
      ∷ row code_enter_down code_enter_down
      ∷ row code_ctrl_down code_ctrl_down
      ∷ row code_a_down code_a_down
      ∷ row code_s_down code_s_down
      ∷ row code_d_down code_d_down
      ∷ row code_f_down code_f_down
      ∷ row code_g_down code_g_down
      ∷ row code_h_down code_h_down
      ∷ row code_j_down code_j_down
      ∷ row code_k_down code_k_down
      ∷ row code_l_down code_l_down
      ∷ row code_semicolon_down code_colon_down
      ∷ row code_single_quotation_down code_double_quotation_down
      ∷ row code_backtick_down code_tilde_down
      ∷ row code_shift_down code_shift_down
      ∷ row code_backslash_down code_or_down
      ∷ row code_z_down code_z_down
      ∷ row code_x_down code_x_down
      ∷ row code_c_down code_c_down
      ∷ row code_v_down code_v_down
      ∷ row code_b_down code_b_down
      ∷ row code_n_down code_n_down
      ∷ row code_m_down code_m_down
      ∷ row code_comma_down code_less_down
      ∷ row code_dot_down code_great_down
      ∷ row code_forward_slash_down code_question_down
      ∷ row code_shift_down code_shift_down
      ∷ replicate 2 blank
    ++ row code_space_down code_space_down
      ∷ row code_caps_lock_down code_caps_lock_down
      ∷ replicate 69 blank

-- The scan codes 0x80 to 0xff: a key goes up.
unfoldable pub up_rows : List (ℕ × ℕ)
unfolding code
up_rows =
    blank
      ∷ row code_esc_up code_esc_up
      ∷ row code_1_up code_bang_up
      ∷ row code_2_up code_at_up
      ∷ row code_3_up code_hash_up
      ∷ row code_4_up code_dollar_up
      ∷ row code_5_up code_mod_up
      ∷ row code_6_up code_caret_up
      ∷ row code_7_up code_and_up
      ∷ row code_8_up code_star_up
      ∷ row code_9_up code_left_parenthesis_up
      ∷ row code_0_up code_right_parenthesis_up
      ∷ row code_sub_up code_underscore_up
      ∷ row code_equ_up code_add_up
      ∷ row code_backspace_up code_backspace_up
      ∷ row code_tab_up code_tab_up
      ∷ row code_q_up code_q_up
      ∷ row code_w_up code_w_up
      ∷ row code_e_up code_e_up
      ∷ row code_r_up code_r_up
      ∷ row code_t_up code_t_up
      ∷ row code_y_up code_y_up
      ∷ row code_u_up code_u_up
      ∷ row code_i_up code_i_up
      ∷ row code_o_up code_o_up
      ∷ row code_p_up code_p_up
      ∷ row code_left_square_bracket_up code_left_curly_brace_up
      ∷ row code_right_square_bracket_up code_right_curly_brace_up
      ∷ row code_enter_up code_enter_up
      ∷ row code_ctrl_up code_ctrl_up
      ∷ row code_a_up code_a_up
      ∷ row code_s_up code_s_up
      ∷ row code_d_up code_d_up
      ∷ row code_f_up code_f_up
      ∷ row code_g_up code_g_up
      ∷ row code_h_up code_h_up
      ∷ row code_j_up code_j_up
      ∷ row code_k_up code_k_up
      ∷ row code_l_up code_l_up
      ∷ row code_semicolon_up code_colon_up
      ∷ row code_single_quotation_up code_double_quotation_up
      ∷ row code_backtick_up code_tilde_up
      ∷ row code_shift_up code_shift_up
      ∷ row code_backslash_up code_or_up
      ∷ row code_z_up code_z_up
      ∷ row code_x_up code_x_up
      ∷ row code_c_up code_c_up
      ∷ row code_v_up code_v_up
      ∷ row code_b_up code_b_up
      ∷ row code_n_up code_n_up
      ∷ row code_m_up code_m_up
      ∷ row code_comma_up code_less_up
      ∷ row code_dot_up code_great_up
      ∷ row code_forward_slash_up code_question_up
      ∷ row code_shift_up code_shift_up
      ∷ replicate 2 blank
    ++ row code_space_up code_space_up
      ∷ row code_caps_lock_up code_caps_lock_up
      ∷ replicate 69 blank

unfoldable pub convert_table : List (ℕ × ℕ)
unfolding down_rows up_rows
convert_table = down_rows ++ up_rows
