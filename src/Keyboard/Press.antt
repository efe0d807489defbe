-- ===== src/Keyboard/Press.antt =====
-- A key press through keyboard_interrupt and KeyBoardRead of device/keyboard.c.
use mmzzos.Base.{
  ℕ, ◌+◌, ◌/◌, ◌%◌, ◌<◌, ◌≡◌, ◌≢◌, refl, sym, ap, ◌∙◌, Bool, true, false, ◌||◌, List, [], ◌∷◌, ◌++◌,
  ◌==◌, ltb, some, length, set, All, Bool-cases, inl, inr, arith, ==_iff, length-append, take-all,
}
use mmzzos.Base.Bytes.{passes, passes-true}
use mmzzos.IoQueue.{IoQueue, Thread, is_full}
use mmzzos.IoQueue.Ring.{IsValid, contents}
use mmzzos.IoQueue.Pipe.{over}
use mmzzos.Keys.Codes.{code}
use mmzzos.Keys.Tables.{convert_table, down_rows, up_rows}
use mmzzos.Keys.{
  look_up, capital, keyboard_function, convert_to, convert_other, symbols, is_function_key,
}
use mmzzos.Keys.Layout.{typed, layout_lem}
use mmzzos.Keyboard.{
  Keyboard, max_cnt, decode_scan, modifiers, put_key, record_key, send_key, key_out, on_decode,
  keyboard_interrupt, served, key_read,
}
use mmzzos.Keyboard.Handler.{put_key_lem, is_full-room}
use mmzzos.Keyboard.Reading.{key_bytes, key_chars, key_read_lem}

differs :
    (raise : Bool) (c n : ℕ)
    → convert_to (capital raise n) ≡ 255
    → convert_to (capital raise c) ≢ 255
    → (c == n) ≡ false
differs raise c n none_ some_ = elim (Bool-cases (c == n)) [
  | inl e ↦ absurd (some_ (ap (λ c. convert_to (capital raise c)) ((==_iff c n).0 e) ∙ none_))
  | inr e ↦ e
]

-- The modifier keys have no character.
no_char :
    (raise : Bool)
    → All (λ n. convert_to (capital raise n) ≡ 255) (10 ∷ 11 ∷ 6 ∷ 12 ∷ 13 ∷ 65535 ∷ [])
unfolding code capital convert_to convert_other symbols is_function_key
no_char true = (refl, (refl, (refl, (refl, (refl, (refl, tt))))))
no_char false = (refl, (refl, (refl, (refl, (refl, (refl, tt))))))

modifiers_same :
    (c : ℕ) (k : Keyboard)
    → convert_to (capital (k.shift || k.caps_lock) c) ≢ 255
    → modifiers c k ≡ k
unfolding modifiers code
modifiers_same c k h =
    let raise = k.shift || k.caps_lock in
    let (a, (b, (d, (e, (f, g))))) = no_char raise in
    simp (
      differs raise c 10 a h,
      differs raise c 11 b h,
      differs raise c 6 d h,
      differs raise c 12 e h,
      differs raise c 13 f h,
    )

small_row : Bool → Bool → ℕ → Bool
small_row shift raise s = ltb (capital raise (look_up shift s)) 65535 || (look_up shift s == 65535)

small_table : (shift raise : Bool) → passes (small_row shift raise) 256 ≡ true
unfolding passes small_row code look_up capital convert_table down_rows up_rows
small_table true true = refl
small_table true false = refl
small_table false true = refl
small_table false false = refl

-- The key code of a scan code with a character.
key_small :
    (shift raise : Bool) (s : ℕ)
    → s < 256
    → (look_up shift s == 65535) ≡ false
    → capital raise (look_up shift s) < 65535
unfolding small_row
key_small shift raise s h some_ =
    let row = passes-true (small_row shift raise) 256 s h (small_table shift raise) in ground arith

-- The character that a press types.
abbrev pub press_char : Keyboard → ℕ → ℕ
press_char k s = typed k.shift k.caps_lock s

abbrev press_key : Keyboard → ℕ → ℕ
press_key k s = capital (k.shift || k.caps_lock) (look_up k.shift s)

-- The state of the handler at its puts.
abbrev recorded : Keyboard → ℕ → Keyboard
recorded k s = record k {
  flag = false;
  queue = set k.queue k.queue_idx (press_key k s);
  queue_idx = (k.queue_idx + 1) % max_cnt;
}

send_key_as :
    (me : Thread) (k : Keyboard) (key : ℕ)
    → is_full k.io ≡ false
    → (key == 65535) ≡ false
    → send_key me k key ≡ put_key me k key
unfolding send_key
send_key_as me k key room some_ = rw (room, some_) refl

key_out_plain : (key : ℕ) → key_out false key ≡ key
unfolding key_out keyboard_function
key_out_plain key = refl

-- A key with ctrl up and room in the queue is put as it is.
record_key_as :
    (me : Thread) (k : Keyboard) (c : ℕ)
    → k.ctrl ≡ false
    → let key = capital (k.shift || k.caps_lock) c in
      let k' = record k {
        queue = set k.queue k.queue_idx key;
        queue_idx = (k.queue_idx + 1) % max_cnt;
      } in
      (key == 65535) ≡ false → is_full k.io ≡ false → record_key me k c ≡ put_key me k' key
unfolding record_key
record_key_as me k c off some_ room =
    let key = capital (k.shift || k.caps_lock) c in
    let k' : Keyboard = record k {
      queue = set k.queue k.queue_idx key;
      queue_idx = (k.queue_idx + 1) % max_cnt;
    } in
    ap (λ ctrl. send_key me k' (key_out ctrl key)) off
    ∙ ap (send_key me k') (key_out_plain key)
    ∙ send_key_as me k' key room some_

decode_plain :
    (shift : Bool) (s : ℕ) → s ≢ 0xe0 → decode_scan false shift s ≡ (look_up shift s, false)
unfolding decode_scan
decode_plain shift s plain = let e : (s == 0xe0) ≡ false = ground arith in rw e refl

interrupt_as :
    (me : Thread) (k : Keyboard) (s : ℕ)
    → k.flag ≡ false
    → s ≢ 0xe0
    → (look_up k.shift s == 65535) ≡ false
    → keyboard_interrupt me k s
      ≡ record_key me
          (modifiers (look_up k.shift s) (record k { flag = false }))
          (look_up k.shift s)
unfolding keyboard_interrupt on_decode
interrupt_as me k s flag plain some_ =
    ap (λ f. on_decode me k (decode_scan f k.shift s)) flag
    ∙ ap (on_decode me k) (decode_plain k.shift s plain)
    ∙ rw some_ refl

press_key-lt : (k : Keyboard) (s : ℕ) → s < 256 → press_char k s ≢ 255 → press_key k s < 65536
press_key-lt k s small char =
    let raise = k.shift || k.caps_lock in
    let layout = layout_lem k.shift k.caps_lock s small in
    let (_, (_, (_, (_, (_, (no_key, _)))))) = no_char raise in
    let some_ = differs raise (look_up k.shift s) 65535 no_key (λ e. char (sym layout ∙ e)) in
    omega (arith, key_small k.shift raise s small some_)

-- A press of a key with a character, ctrl up and two cells free, puts its key code.
press_lem :
    (me : Thread) (k : Keyboard) (s : ℕ)
    → IsValid k.io
    → length (contents k.io) + 2 < k.io.len
    → k.flag ≡ false
    → k.ctrl ≡ false
    → s < 256
    → s ≢ 0xe0
    → press_char k s ≢ 255
    → (q : IoQueue) × (keyboard_interrupt me k s ≡ served (record (recorded k s) { io = q }))
      × IsValid q
      × (contents q ≡ contents k.io ++ key_bytes (press_key k s ∷ []))
press_lem me k s v room flag off small plain char =
    let raise = k.shift || k.caps_lock in
    let c = look_up k.shift s in
    let layout = layout_lem k.shift k.caps_lock s small in
    let chars : convert_to (capital raise c) ≢ 255 = λ e. char (sym layout ∙ e) in
    let (_, (_, (_, (_, (_, (no_key, _)))))) = no_char raise in
    let some_ = differs raise c 65535 no_key chars in
    let below = key_small k.shift raise s small some_ in
    let k0 : Keyboard = record k { flag = false } in
    let not_full = is_full-room k.io v (omega arith) in
    let not_none : (press_key k s == 65535) ≡ false = ground arith in
    let (q, ends, v', len, held) = put_key_lem me (recorded k s) (press_key k s) v room in
    (
      q,
      interrupt_as me k s flag plain some_
          ∙ ap (λ k. record_key me k c) (modifiers_same c k0 chars)
          ∙ record_key_as me k0 c off not_none not_full
          ∙ ends,
      v',
      held,
    )

key_bytes-append : (xs ys : List ℕ) → key_bytes (xs ++ ys) ≡ key_bytes xs ++ key_bytes ys
key_bytes-append [] ys = refl
key_bytes-append (x ∷ xs) ys = ap (λ l. x / 256 % 256 ∷ x % 256 ∷ l) (key_bytes-append xs ys)

key_chars-snoc :
    (keys : List ℕ) (key : ℕ)
    → convert_to key ≢ 255
    → key_chars (keys ++ key ∷ []) ≡ key_chars keys ++ convert_to key ∷ []
key_chars-snoc [] key some_ = let e : (convert_to key == 255) ≡ false = ground arith in rw e refl
key_chars-snoc (x ∷ keys) key some_ = elim (Bool-cases (convert_to x == 255)) [
  | inl e ↦ rw e (key_chars-snoc keys key some_)
  | inr e ↦ rw e (ap (λ l. convert_to x ∷ l) (key_chars-snoc keys key some_))
]

All-snoc :
    (keys : List ℕ) (key : ℕ)
    → All (λ key. key < 65536) keys
    → key < 65536
    → All (λ key. key < 65536) (keys ++ key ∷ [])
All-snoc [] key all h = (h, tt)
All-snoc (x ∷ keys) key all h = (all.0, All-snoc keys key all.1 h)

-- From a queue of key codes with two cells free, with ctrl up and no 0xe0 before it, a press of a key
-- that types a character returns from the handler, and a thread that then reads one character more
-- than those of the codes before gets them and the character that the layout gives the key under the
-- state of shift and caps lock.
pub press_read :
    (me reader : Thread) (k : Keyboard) (s : ℕ) (keys : List ℕ)
    → IsValid k.io
    → contents k.io ≡ key_bytes keys
    → All (λ key. key < 65536) keys
    → length (contents k.io) + 2 < k.io.len
    → k.flag ≡ false
    → k.ctrl ≡ false
    → s < 256
    → s ≢ 0xe0
    → press_char k s ≢ 255
    → (k' : Keyboard) × (keyboard_interrupt me k s ≡ served k')
      × ((q : IoQueue) × (key_read (length keys + 2) reader k'.io (length (key_chars keys) + 1) []
            ≡ some (over (key_chars keys ++ press_char k s ∷ []) q)))
press_read me reader k s keys v held all room flag off small plain char =
    let key = press_key k s in
    let layout = layout_lem k.shift k.caps_lock s small in
    let chars : convert_to key ≢ 255 = λ e. char (sym layout ∙ e) in
    let (q, ends, v', c) = press_lem me k s v room flag off small plain char in
    let all' = All-snoc keys key all (press_key-lt k s small char) in
    let bytes : contents q ≡ key_bytes (keys ++ key ∷ []) =
      c ∙ ap (λ l. l ++ key_bytes (key ∷ [])) held ∙ sym (key_bytes-append keys (key ∷ [])) in
    let fuel : length (keys ++ key ∷ []) < length keys + 2 =
      omega (arith, length-append keys (key ∷ [])) in
    let (reads, _) =
      key_read_lem (keys ++ key ∷ []) (length keys + 2) reader q (length (key_chars keys) + 1) v'
        all' bytes fuel in
    let typed_ : key_chars (keys ++ key ∷ []) ≡ key_chars keys ++ press_char k s ∷ [] =
      key_chars-snoc keys key chars ∙ ap (λ ch. key_chars keys ++ ch ∷ []) layout in
    let count : length (key_chars (keys ++ key ∷ [])) ≡ length (key_chars keys) + 1 =
      ap length typed_ ∙ length-append (key_chars keys) (press_char k s ∷ []) in
    let (q', over_) = reads (omega (arith, count)) in
    (
      record (recorded k s) { io = q },
      ends,
      (
        q',
        over_
            ∙ ap (λ l. some (over l q'))
                (take-all _ (length (key_chars keys) + 1) (omega (arith, count)) ∙ typed_),
      ),
    )
