-- ===== src/Keys/Tests.antt =====
-- A key of device/keyboard.c with shift.
use mmzzos.Base.{◌≡◌, true, false, arith}
use mmzzos.Keys.{look_up, capital, convert_to}
use mmzzos.Keys.Layout.{layout_lem}

layout_lem_example : convert_to (capital true (look_up true 3)) ≡ b'@'
layout_lem_example = layout_lem true false 3 (omega arith)
