-- ===== src/Keyboard/Handler.antt =====
-- The puts of keyboard_interrupt of device/keyboard.c, and what a thread reads behind them.
use mmzzos.Base.{
  ℕ, ◌+◌, ◌/◌, ◌%◌, ◌<◌, ◌≡◌, ◌⊎◌, ap, ◌∙◌, false, [], ◌∷◌, ◌++◌, length, Bool-cases, inl, inr,
  arith, length-append,
}
use mathlib.Core.List.{append_assoc}
use mmzzos.IoQueue.{IoQueue, Thread, sleeps, waits, put_round, is_full}
use mmzzos.IoQueue.Ring.{IsValid, contents, queue_len_lem}
use mmzzos.IoQueue.Rounds.{put_done, put_stuck}
use mmzzos.Keyboard.{Keyboard, put_key, served, stuck, after_high, after_low}
use mmzzos.Keyboard.Reading.{key_bytes}

pub is_full-room : (q : IoQueue) → IsValid q → length (contents q) + 1 < q.len → is_full q ≡ false
is_full-room q v room =
    let (count, lt, empty, full) = queue_len_lem q v in
    elim (Bool-cases (is_full q)) [ inl e ↦ let one = full.0 e in absurd (omega arith) | inr e ↦ e ]

-- With two free cells both bytes of a key code are put.
pub put_key_lem :
    (me : Thread) (k : Keyboard) (key : ℕ)
    → IsValid k.io
    → length (contents k.io) + 2 < k.io.len
    → (q : IoQueue) × (put_key me k key ≡ served (record k { io = q }))
      × IsValid q
      × (q.len ≡ k.io.len)
      × (contents q ≡ contents k.io ++ key_bytes (key ∷ []))
unfolding put_key
put_key_lem me k key v room =
    let (w1, q1, r1, v1, l1, c1) = put_done me k.io v (key / 256 % 256) (omega arith) in
    let more : length (contents q1) + 1 < q1.len =
      omega (arith, l1, ap length c1, length-append (contents k.io) (key / 256 % 256 ∷ [])) in
    let (w2, q2, r2, v2, l2, c2) = put_done me q1 v1 (key % 256) more in
    (
      q2,
      ap (after_high me k key) r1 ∙ ap (after_low k) r2,
      v2,
      l2 ∙ l1,
      c2 ∙ ap (λ l. l ++ key % 256 ∷ []) c1 ∙ append_assoc (contents k.io) _ _,
    )

-- With one free cell the test for a full ring passes, and the handler puts the high byte and then
-- sleeps, or waits for the lock, in the put of the low byte.
pub put_key-stuck :
    (me : Thread) (k : Keyboard) (key : ℕ)
    → IsValid k.io
    → length (contents k.io) + 2 ≡ k.io.len
    → (is_full k.io ≡ false)
      × ((q : IoQueue) × (put_key me k key ≡ stuck (record k { io = q }))
          × (contents q ≡ contents k.io ++ key / 256 % 256 ∷ []))
unfolding put_key
put_key-stuck me k key v last =
    let (w1, q1, r1, v1, l1, c1) = put_done me k.io v (key / 256 % 256) (omega arith) in
    let full : length (contents q1) + 1 ≡ q1.len =
      omega (arith, l1, ap length c1, length-append (contents k.io) (key / 256 % 256 ∷ [])) in
    let (q2, ends, c2) = put_stuck me q1 v1 (key % 256) full in
    (
      is_full-room k.io v (omega arith),
      (q2, ap (after_high me k key) r1 ∙ behind q1 q2 ends, c2 ∙ c1),
    )
  where
    behind :
        (q1 q2 : IoQueue)
        → (put_round me q1 (key % 256) ≡ sleeps q2) ⊎ (put_round me q1 (key % 256) ≡ waits q2)
        → after_low k (put_round me q1 (key % 256)) ≡ stuck (record k { io = q2 })
    behind q1 q2 (inl e) = ap (after_low k) e
    behind q1 q2 (inr e) = ap (after_low k) e
