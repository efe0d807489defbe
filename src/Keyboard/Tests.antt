-- ===== src/Keyboard/Tests.antt =====
-- A keyboard with an empty queue of eight cells, and the theorems on it; the arrow keys behind 0xe0.
use mmzzos.Base.{◌≡◌, refl, true, false, [], ◌∷◌, none, some, replicate, arith}
use mmzzos.IoQueue.{IoQueue, queue_len}
use mmzzos.IoQueue.Ring.{IsValid, cells}
use mmzzos.IoQueue.Pipe.{over}
use mmzzos.Keys.Codes.{code}
use mmzzos.Keys.{convert_to, is_function_key, convert_other, symbols}
use mmzzos.Keyboard.{Keyboard, keyboard_interrupt, served, key_read, extended_code}
use mmzzos.Keyboard.Press.{press_read}

abbrev ring : IoQueue
ring = record {
  holder = none;
  len = 8;
  buff = replicate 8 0;
  head = 0;
  tail = 0;
  producer = none;
  consumer = none;
}

ring-IsValid : IsValid ring
ring-IsValid = record { storage = refl; head_in = omega arith; tail_in = omega arith }

-- With caps lock on.
abbrev keyboard : Keyboard
keyboard = record {
  shift = false;
  caps_lock = true;
  ctrl = false;
  flag = false;
  queue = replicate 56 65535;
  queue_idx = 55;
  io = ring;
}

-- The key Q has the scan code 0x10.
press_read_example :
    (k' : Keyboard) × (keyboard_interrupt 1 keyboard 0x10 ≡ served k')
    × ((q : IoQueue) × (key_read 2 2 k'.io 1 [] ≡ some (over (b'Q' ∷ []) q)))
unfolding queue_len cells
press_read_example =
    press_read 1 2 keyboard 0x10 [] ring-IsValid refl tt (omega arith) refl refl (omega arith)
      (λ e. absurd (omega arith)) (λ e. absurd (omega arith))

-- The codes 52 and 62 are those of the keys K and U.
abbrev typed_ring : IoQueue
typed_ring = record ring { buff = 0 ∷ 52 ∷ 0 ∷ 62 ∷ 0 ∷ 0 ∷ 0 ∷ 0 ∷ []; head = 4 }

-- Three key codes in eight cells leave one cell free.
abbrev last_cell : Keyboard
last_cell = record keyboard { io = record ring { head = 6 } }

-- The scan code of the right arrow key reads as the letter R.
right_arrow : convert_to (extended_code 0x4d) ≡ b'r'
unfolding extended_code code convert_to is_function_key convert_other symbols
right_arrow = refl
