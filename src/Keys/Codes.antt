-- ===== src/Keys/Codes.antt =====
-- The key codes of device/keyboard.h: `enum KEYBOARDCODE` and the number of each constant.
use mmzzos.Base.{ℕ}

pub data KeyCode : Type 0 where
  code_esc_down code_esc_up code_backspace_down code_backspace_up code_tab_down code_tab_up :
      KeyCode
  code_caps_lock_down code_caps_lock_up code_enter_down code_enter_up code_shift_down : KeyCode
  code_shift_up code_ctrl_down code_ctrl_up code_left_down code_left_up code_right_down : KeyCode
  code_right_up code_up_down code_up_up code_down_down code_down_up code_0_down code_1_down :
      KeyCode
  code_2_down code_3_down code_4_down code_5_down code_6_down code_7_down code_8_down : KeyCode
  code_9_down code_0_up code_1_up code_2_up code_3_up code_4_up code_5_up code_6_up : KeyCode
  code_7_up code_8_up code_9_up code_a_down code_b_down code_c_down code_d_down code_e_down :
      KeyCode
  code_f_down code_g_down code_h_down code_i_down code_j_down code_k_down code_l_down : KeyCode
  code_m_down code_n_down code_o_down code_p_down code_q_down code_r_down code_s_down : KeyCode
  code_t_down code_u_down code_v_down code_w_down code_x_down code_y_down code_z_down : KeyCode
  code_a_up code_b_up code_c_up code_d_up code_e_up code_f_up code_g_up code_h_up code_i_up :
      KeyCode
  code_j_up code_k_up code_l_up code_m_up code_n_up code_o_up code_p_up code_q_up code_r_up :
      KeyCode
  code_s_up code_t_up code_u_up code_v_up code_w_up code_x_up code_y_up code_z_up : KeyCode
  code_space_down code_space_up code_tilde_down code_tilde_up code_backtick_down : KeyCode
  code_backtick_up code_bang_down code_bang_up code_at_down code_at_up code_hash_down : KeyCode
  code_hash_up code_dollar_down code_dollar_up code_mod_down code_mod_up code_caret_down : KeyCode
  code_caret_up code_and_down code_and_up code_star_down code_star_up : KeyCode
  code_left_parenthesis_down code_left_parenthesis_up code_right_parenthesis_down : KeyCode
  code_right_parenthesis_up code_underscore_down code_underscore_up code_sub_down : KeyCode
  code_sub_up code_add_down code_add_up code_equ_down code_equ_up : KeyCode
  code_left_curly_brace_down code_left_curly_brace_up code_left_square_bracket_down : KeyCode
  code_left_square_bracket_up code_right_curly_brace_down code_right_curly_brace_up : KeyCode
  code_right_square_bracket_down code_right_square_bracket_up code_or_down code_or_up : KeyCode
  code_backslash_down code_backslash_up code_colon_down code_colon_up code_semicolon_down : KeyCode
  code_semicolon_up code_double_quotation_down code_double_quotation_up : KeyCode
  code_single_quotation_down code_single_quotation_up code_comma_down code_comma_up : KeyCode
  code_less_down code_less_up code_dot_down code_dot_up code_great_down code_great_up : KeyCode
  code_question_down code_question_up code_forward_slash_down code_forward_slash_up : KeyCode
  code_ctrl_begin code_ctrl_z code_ctrl_c code_ctrl_l code_ctrl_u code_ctrl_end : KeyCode

-- The constants count from 0.
unfoldable pub code : KeyCode → ℕ
code code_esc_down = 0
code code_esc_up = 1
code code_backspace_down = 2
code code_backspace_up = 3
code code_tab_down = 4
code code_tab_up = 5
code code_caps_lock_down = 6
code code_caps_lock_up = 7
code code_enter_down = 8
code code_enter_up = 9
code code_shift_down = 10
code code_shift_up = 11
code code_ctrl_down = 12
code code_ctrl_up = 13
code code_left_down = 14
code code_left_up = 15
code code_right_down = 16
code code_right_up = 17
code code_up_down = 18
code code_up_up = 19
code code_down_down = 20
code code_down_up = 21
code code_0_down = 22
code code_1_down = 23
code code_2_down = 24
code code_3_down = 25
code code_4_down = 26
code code_5_down = 27
code code_6_down = 28
code code_7_down = 29
code code_8_down = 30
code code_9_down = 31
code code_0_up = 32
code code_1_up = 33
code code_2_up = 34
code code_3_up = 35
code code_4_up = 36
code code_5_up = 37
code code_6_up = 38
code code_7_up = 39
code code_8_up = 40
code code_9_up = 41
code code_a_down = 42
code code_b_down = 43
code code_c_down = 44
code code_d_down = 45
code code_e_down = 46
code code_f_down = 47
code code_g_down = 48
code code_h_down = 49
code code_i_down = 50
code code_j_down = 51
code code_k_down = 52
code code_l_down = 53
code code_m_down = 54
code code_n_down = 55
code code_o_down = 56
code code_p_down = 57
code code_q_down = 58
code code_r_down = 59
code code_s_down = 60
code code_t_down = 61
code code_u_down = 62
code code_v_down = 63
code code_w_down = 64
code code_x_down = 65
code code_y_down = 66
code code_z_down = 67
code code_a_up = 68
code code_b_up = 69
code code_c_up = 70
code code_d_up = 71
code code_e_up = 72
code code_f_up = 73
code code_g_up = 74
code code_h_up = 75
code code_i_up = 76
code code_j_up = 77
code code_k_up = 78
code code_l_up = 79
code code_m_up = 80
code code_n_up = 81
code code_o_up = 82
code code_p_up = 83
code code_q_up = 84
code code_r_up = 85
code code_s_up = 86
code code_t_up = 87
code code_u_up = 88
code code_v_up = 89
code code_w_up = 90
code code_x_up = 91
code code_y_up = 92
code code_z_up = 93
code code_space_down = 94
code code_space_up = 95
code code_tilde_down = 96
code code_tilde_up = 97
code code_backtick_down = 98
code code_backtick_up = 99
code code_bang_down = 100
code code_bang_up = 101
code code_at_down = 102
code code_at_up = 103
code code_hash_down = 104
code code_hash_up = 105
code code_dollar_down = 106
code code_dollar_up = 107
code code_mod_down = 108
code code_mod_up = 109
code code_caret_down = 110
code code_caret_up = 111
code code_and_down = 112
code code_and_up = 113
code code_star_down = 114
code code_star_up = 115
code code_left_parenthesis_down = 116
code code_left_parenthesis_up = 117
code code_right_parenthesis_down = 118
code code_right_parenthesis_up = 119
code code_underscore_down = 120
code code_underscore_up = 121
code code_sub_down = 122
code code_sub_up = 123
code code_add_down = 124
code code_add_up = 125
code code_equ_down = 126
code code_equ_up = 127
code code_left_curly_brace_down = 128
code code_left_curly_brace_up = 129
code code_left_square_bracket_down = 130
code code_left_square_bracket_up = 131
code code_right_curly_brace_down = 132
code code_right_curly_brace_up = 133
code code_right_square_bracket_down = 134
code code_right_square_bracket_up = 135
code code_or_down = 136
code code_or_up = 137
code code_backslash_down = 138
code code_backslash_up = 139
code code_colon_down = 140
code code_colon_up = 141
code code_semicolon_down = 142
code code_semicolon_up = 143
code code_double_quotation_down = 144
code code_double_quotation_up = 145
code code_single_quotation_down = 146
code code_single_quotation_up = 147
code code_comma_down = 148
code code_comma_up = 149
code code_less_down = 150
code code_less_up = 151
code code_dot_down = 152
code code_dot_up = 153
code code_great_down = 154
code code_great_up = 155
code code_question_down = 156
code code_question_up = 157
code code_forward_slash_down = 158
code code_forward_slash_up = 159
code code_ctrl_begin = 160
code code_ctrl_z = 161
code code_ctrl_c = 162
code code_ctrl_l = 163
code code_ctrl_u = 164
code code_ctrl_end = 165
