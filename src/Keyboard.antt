-- ===== src/Keyboard.antt =====
-- The keyboard of device/keyboard.c: the state of the modifier keys, the interrupt that decodes a scan
-- code, and the reads from the queue of key codes. A get or put may sleep in the queue, so the call is
-- followed up to there, as the transfers of `IoQueue.Pipe`.
pub mod Handler
pub mod Reading
pub mod Press
mod Tests
use mmzzos.Base.{
  ℕ, zero, suc, ◌+◌, ◌-◌, ◌*◌, ◌/◌, ◌%◌, Bool, true, false, ◌&&◌, ◌||◌, not, List, [], ◌∷◌, ◌++◌,
  ◌==◌, if◌then◌else◌, Option, none, some, set, replicate, bit_or,
}
use mmzzos.IoQueue.{IoQueue, Thread, Round, done, sleeps, waits, is_full, put_round, get_round}
use mmzzos.IoQueue
use mmzzos.IoQueue.Pipe.{Transfer, over, asleep}
use mmzzos.Keys.Codes.{
  code, code_l_down, code_l_up, code_r_down, code_r_up, code_up_down, code_up_up, code_down_down,
  code_down_up, code_shift_down, code_shift_up, code_caps_lock_down, code_ctrl_down, code_ctrl_up,
}
use mmzzos.Keys.Tables.{no_code}
use mmzzos.Keys.{look_up, capital, keyboard_function, convert_to}

-- `flag` is the static variable of the handler: the last scan code was 0xe0.
pub record Keyboard : Type 0 where
  pub shift : Bool
  pub caps_lock : Bool
  pub ctrl : Bool
  pub flag : Bool
  pub queue : List ℕ
  pub queue_idx : ℕ
  pub io : IoQueue

-- `KeyBoardQueueMaxCnt`
abbrev pub max_cnt : ℕ
max_cnt = 56

-- `buf` is the page that the allocator gives.
unfoldable pub keyboard_init : List ℕ → Keyboard → Keyboard
keyboard_init buf k = record k {
  queue = replicate max_cnt no_code;
  io = record (IoQueue.init k.io) { buff = buf; len = 4096 };
}

-- The codes behind 0xe0.
unfoldable pub extended_code : ℕ → ℕ
unfolding code
extended_code scancode =
    if scancode == 0x46
    then code code_l_down
    else if scancode == 0xc6
    then code code_l_up
    else if scancode == 0x4d
    then code code_r_down
    else if scancode == 0xcd
    then code code_r_up
    else if scancode == 0x48
    then code code_up_down
    else if scancode == 0xc8
    then code code_up_up
    else if scancode == 0x50
    then code code_down_down
    else if scancode == 0xd0
    then code code_down_up
    else no_code

-- `decode` and the new `flag`, from `flag` and `KeyBoardShift`.
unfoldable pub decode_scan : Bool → Bool → ℕ → ℕ × Bool
unfolding extended_code
decode_scan flag shift scancode =
    if scancode == 0xe0
    then (no_code, true)
    else if flag
    then (extended_code scancode, false)
    else (look_up shift scancode, false)

unfoldable pub modifiers : ℕ → Keyboard → Keyboard
unfolding code
modifiers decode k = record k {
  shift =
      if decode == code code_shift_down
      then true
      else if decode == code code_shift_up
      then false
      else k.shift;
  caps_lock = if decode == code code_caps_lock_down then not k.caps_lock else k.caps_lock;
  ctrl =
      if decode == code code_ctrl_down
      then true
      else if decode == code code_ctrl_up
      then false
      else k.ctrl;
}

-- How the handler ends: it returns, or it sleeps inside a put.
pub data Served : Type 0 where
  served : Keyboard → Served
  stuck : Keyboard → Served

-- Behind the put of the low byte.
abbrev pub after_low : Keyboard → Round (Unit {0}) → Served
after_low k (done _ w q) = served (record k { io = q })
after_low k (sleeps q) = stuck (record k { io = q })
after_low k (waits q) = stuck (record k { io = q })

-- Behind the put of the high byte.
abbrev pub after_high : Thread → Keyboard → ℕ → Round (Unit {0}) → Served
after_high me k key (done _ w q) = after_low k (put_round me q (key % 256))
after_high me k key (sleeps q) = stuck (record k { io = q })
after_high me k key (waits q) = stuck (record k { io = q })

-- The two puts of a key code, the high byte first.
unfoldable pub put_key : Thread → Keyboard → ℕ → Served
put_key me k key = after_high me k key (put_round me k.io (key / 256 % 256))

-- `KeyBoardFunction(KeyBoardCtrl?CODE_CTRL_DOWN:-1,decode)`
unfoldable pub key_out : Bool → ℕ → ℕ
unfolding code
key_out ctrl key = keyboard_function (if ctrl then code code_ctrl_down else no_code) key

-- `if(!ioQueueFull(&KeyboardIOQueue)&&code!=(uint16_t)-1)`
unfoldable pub send_key : Thread → Keyboard → ℕ → Served
unfolding put_key
send_key me k key =
    if not (is_full k.io) && not (key == no_code) then put_key me k key else served k

-- The part of the handler behind the modifier keys.
unfoldable pub record_key : Thread → Keyboard → ℕ → Served
unfolding send_key key_out
record_key me k decode =
    let key = capital (k.shift || k.caps_lock) decode in
    let k' = record k {
      queue = set k.queue k.queue_idx key;
      queue_idx = (k.queue_idx + 1) % max_cnt;
    } in
    send_key me k' (key_out k.ctrl key)

unfoldable pub on_decode : Thread → Keyboard → ℕ × Bool → Served
unfolding modifiers record_key
on_decode me k (decode, flag) =
    let k' = record k { flag = flag } in
    if decode == no_code then served k' else record_key me (modifiers decode k') decode

-- `me` is the thread that the interrupt stopped, `scancode` what the port gives.
unfoldable pub keyboard_interrupt : Thread → Keyboard → ℕ → Served
unfolding decode_scan on_decode
keyboard_interrupt me k scancode = on_decode me k (decode_scan k.flag k.shift scancode)

abbrev pub got_low : ℕ → Round ℕ → Transfer ℕ
got_low high (done low w q) = over (bit_or high low) q
got_low high (sleeps q) = asleep high q
got_low high (waits q) = asleep high q

abbrev pub got_high : Thread → Round ℕ → Transfer ℕ
got_high me (done high w q) = got_low (high * 256 % 65536) (get_round me q)
got_high me (sleeps q) = asleep 0 q
got_high me (waits q) = asleep 0 q

-- `KeyBoardGet`
unfoldable pub key_get : Thread → IoQueue → Transfer ℕ
key_get me q = got_high me (get_round me q)

-- The loop body of `KeyBoardRead` behind `KeyBoardGet`, with what follows it.
abbrev pub read_on :
    List ℕ → (ℕ → IoQueue → Option (Transfer (List ℕ))) → Transfer ℕ → Option (Transfer (List ℕ))
read_on got next (over key q) = next (convert_to key) q
read_on got next (asleep key q) = some (asleep got q)

-- `KeyBoardRead` of `cnt` more characters behind those it has; `none` means that it has not ended.
unfoldable pub key_read : ℕ → Thread → IoQueue → ℕ → List ℕ → Option (Transfer (List ℕ))
unfolding key_get
key_read zero me q cnt got = none
key_read (suc fuel) me q cnt got =
    let next = λ (ch : ℕ) (q' : IoQueue).
      let kept = key_read fuel me q' (cnt - 1) (got ++ ch ∷ []) in
      let dropped = key_read fuel me q' cnt got in if not (ch == 255) then kept else dropped in
    let key = key_get me q in if cnt == 0 then some (over got q) else read_on got next key
