-- ===== src/IoQueue/Pipe.antt =====
-- `pipe_read` and `pipe_write` of lib/user/syscallFun.c, on the queue that the descriptor names.
use mmzzos.Base.{
  ℕ, zero, suc, ◌+◌, ◌-◌, ◌≤◌, ◌<◌, ◌≡◌, refl, ◌∙◌, ap, sym, List, [], ◌∷◌, ◌++◌, min, take, drop,
  length, length-append, arith, take-all, length-take, take-min-length, drop-min-length,
  take-take_le, ℕ_discrete, inl, inr,
}
use mathlib.Core.List.{append_assoc, append-nil}
use mmzzos.IoQueue.{IoQueue, Thread, done, sleeps, waits, queue_len, put_round, get_round}
use mmzzos.IoQueue.Ring.{IsValid, contents, queue_len_lem}
use mmzzos.IoQueue.Rounds.{put_done, get_done, put_stuck}

-- How a transfer without another thread's help ends: over, with the bytes and the new queue, or
-- asleep (or behind the lock) inside a put or get, with what was transferred before.
pub data Transfer (A : Type 0) : Type 0 where
  over : A → IoQueue → Transfer A
  asleep : A → IoQueue → Transfer A

-- `while(cnt--){ioQueuePut(queue,*buf_);++buf_;++write;}` over the bytes `buf_[0..cnt)`.
write_loop : Thread → IoQueue → List ℕ → ℕ → Transfer ℕ
write_loop me q [] written = over written q
write_loop me q (x ∷ xs) written = elim (put_round me q x) [
  | done _ wakes q' ↦ write_loop me q' xs (written + 1)
  | sleeps q' ↦ asleep written q'
  | waits q' ↦ asleep written q'
]

-- `buf` holds the `cnt` bytes that the caller offers.
unfoldable pub pipe_write : Thread → IoQueue → List ℕ → Transfer ℕ
unfolding write_loop
pipe_write me q buf = write_loop me q (take (min (length buf) (q.len - queue_len q)) buf) 0

-- `while(cnt--){*buf_=ioQueueGet(queue);++buf_;++read;}`; the bytes read are kept in order.
read_loop : Thread → IoQueue → ℕ → List ℕ → Transfer (List ℕ)
read_loop me q zero got = over got q
read_loop me q (suc cnt) got = elim (get_round me q) [
  | done x wakes q' ↦ read_loop me q' cnt (got ++ (x ∷ []))
  | sleeps q' ↦ asleep got q'
  | waits q' ↦ asleep got q'
]

unfoldable pub pipe_read : Thread → IoQueue → ℕ → Transfer (List ℕ)
unfolding read_loop
pipe_read me q cnt = read_loop me q (min cnt (queue_len q)) []

-- The transfer is over, with the result `P` speaks of.
abbrev pub Over : {A : Type 0} → (A → IoQueue → Type 0) → Transfer A → Type 0
Over P (over a q) = P a q
Over P (asleep a q) = ⊥

abbrev pub Asleep : {A : Type 0} → (A → IoQueue → Type 0) → Transfer A → Type 0
Asleep P (over a q) = ⊥
Asleep P (asleep a q) = P a q

Over-mono :
    {A : Type 0} {P Q : A → IoQueue → Type 0} (t : Transfer A)
    → ((a : A) (q : IoQueue) → P a q → Q a q)
    → Over P t
    → Over Q t
Over-mono (over a q) weaken h = weaken a q h
Over-mono (asleep a q) weaken h = h

Asleep-mono :
    {A : Type 0} {P Q : A → IoQueue → Type 0} (t : Transfer A)
    → ((a : A) (q : IoQueue) → P a q → Q a q)
    → Asleep P t
    → Asleep Q t
Asleep-mono (over a q) weaken h = h
Asleep-mono (asleep a q) weaken h = weaken a q h

write_loop-room :
    (me : Thread) (q : IoQueue) (xs : List ℕ) (n : ℕ)
    → IsValid q
    → length (contents q) + length xs < q.len
    → Over
        (λ written q'. (written ≡ n + length xs) × IsValid q' × (contents q' ≡ contents q ++ xs))
        (write_loop me q xs n)
unfolding write_loop
write_loop-room me q [] n v room = (omega arith, v, sym (append-nil (contents q)))
write_loop-room me q (x ∷ xs) n v room =
    let (w, q', e, v', len, c) = put_done me q v x (omega arith) in
    let n' : ℕ = n + 1 in
    let room' : length (contents q') + length xs < q'.len =
      omega (arith, ap length c, length-append (contents q) (x ∷ [])) in
    rw (e, write_loop)
      (Over-mono (write_loop me q' xs n')
        (λ k q'' (k', v'', c').
          (omega arith, v'', c' ∙ ap (λ l. l ++ xs) c ∙ append_assoc (contents q) (x ∷ []) xs))
        (write_loop-room me q' xs n' v' room'))

-- Where the bytes do not fit, the loop puts those that do and then sleeps on the full ring.
write_loop-full :
    (me : Thread) (q : IoQueue) (xs : List ℕ) (n : ℕ)
    → IsValid q
    → q.len ≤ length (contents q) + length xs
    → Asleep
        (λ written q'.
          (written + length (contents q) + 1 ≡ n + q.len)
          × (contents q' ≡ contents q ++ take (q.len - length (contents q) - 1) xs))
        (write_loop me q xs n)
unfolding write_loop
write_loop-full me q [] n v over_full =
    let (count, lt, _, _) = queue_len_lem q v in absurd (omega (arith, count, lt))
write_loop-full me q (x ∷ xs) n v over_full = elim (ℕ_discrete (length (contents q) + 1) q.len) [
  | yes full ↦
      let (q', stuck, c) = put_stuck me q v x full in
      let none_left : q.len - length (contents q) - 1 ≡ 0 = omega arith in
      elim stuck [
        | inl e ↦ rw (e, none_left, write_loop) (omega arith, c ∙ sym (append-nil (contents q)))
        | inr e ↦ rw (e, none_left, write_loop) (omega arith, c ∙ sym (append-nil (contents q)))
      ]
  | no room ↦
      let (count, lt, _, _) = queue_len_lem q v in
      let (w, q', e, v', len, c) = put_done me q v x (omega (arith, count, lt)) in
      let longer : length (contents q') ≡ length (contents q) + 1 =
        omega (arith, ap length c, length-append (contents q) (x ∷ [])) in
      let left : q.len - length (contents q) - 1 ≡ suc (q'.len - length (contents q') - 1) =
        omega (arith, count, lt) in
      rw (e, left, write_loop)
        (Asleep-mono (write_loop me q' xs (n + 1))
          (λ k q'' (k', c'). (
            omega arith,
            c'
                ∙ ap (λ l. l ++ take (q'.len - length (contents q') - 1) xs) c
                ∙ append_assoc (contents q) (x ∷ []) _,
          ))
          (write_loop-full me q' xs (n + 1) v' (omega arith)))
]

-- `l` is the contents, so that the recursion can follow it.
read_loop-there :
    (me : Thread) (q : IoQueue) (cnt : ℕ) (got l : List ℕ)
    → IsValid q
    → contents q ≡ l
    → cnt ≤ length l
    → Over
        (λ bytes q'. (bytes ≡ got ++ take cnt l) × IsValid q' × (contents q' ≡ drop cnt l))
        (read_loop me q cnt got)
unfolding read_loop
read_loop-there me q zero got l v same enough = (sym (append-nil got), v, same)
read_loop-there me q (suc cnt) got [] v same enough = absurd (omega arith)
read_loop-there me q (suc cnt) got (x ∷ xs) v same enough =
    let (w, q', e, v', len, c) = get_done me q v x xs same in
    rw (e, read_loop)
      (Over-mono (read_loop me q' cnt (got ++ (x ∷ [])))
        (λ bytes q'' (b, v'', c'). (b ∙ append_assoc got (x ∷ []) (take cnt xs), v'', c'))
        (read_loop-there me q' cnt (got ++ (x ∷ [])) xs v' c (omega arith)))

module _ (me : Thread) (q : IoQueue) (v : IsValid q) where
  -- On a valid ring a write of fewer bytes than there are free cells puts them all behind the others.
  pub pipe_write_lem :
      (buf : List ℕ)
      → length (contents q) + length buf < q.len
      → Over
          (λ written q'. (written ≡ length buf) × IsValid q' × (contents q' ≡ contents q ++ buf))
          (pipe_write me q buf)
  unfolding pipe_write
  pipe_write_lem buf room =
      let (count, _, _, _) = queue_len_lem q v in
      rw (take-all buf (min (length buf) (q.len - queue_len q)) (omega (arith, count))) (
        Over-mono (write_loop me q buf 0) (λ k q' (k', v', c). (omega arith, v', c))
          (write_loop-room me q buf 0 v room))

  -- On a valid ring a write of at least as many bytes as `ioQueueLen` leaves of `len` never returns by itself: it
  -- puts one byte less than that and then sleeps on the full ring.
  pub pipe_write-sleeps :
      (buf : List ℕ)
      → q.len ≤ length (contents q) + length buf
      → Asleep
          (λ written q'.
            (written + length (contents q) + 1 ≡ q.len)
            × (contents q' ≡ contents q ++ take (q.len - length (contents q) - 1) buf))
          (pipe_write me q buf)
  unfolding pipe_write
  pipe_write-sleeps buf over_full =
      let (count, _, _, _) = queue_len_lem q v in
      let n = min (length buf) (q.len - queue_len q) in
      Asleep-mono (write_loop me q (take n buf) 0)
        (λ k q' (k', c'). (
          omega arith,
          c' ∙ ap (λ l. contents q ++ l) (take-take_le buf _ n (omega (arith, count))),
        ))
        (write_loop-full me q (take n buf) 0 v (omega (arith, count, length-take buf n)))

  -- On a valid ring a read never sleeps: it takes the oldest bytes, as many as asked for and there.
  pub pipe_read_lem :
      (cnt : ℕ)
      → Over
          (λ bytes q'.
            (bytes ≡ take cnt (contents q)) × IsValid q' × (contents q' ≡ drop cnt (contents q)))
          (pipe_read me q cnt)
  unfolding pipe_read
  pipe_read_lem cnt =
      let (count, _, _, _) = queue_len_lem q v in
      let there : min cnt (queue_len q) ≡ min cnt (length (contents q)) =
        ap (min cnt) (sym count) in
      rw there (
        Over-mono (read_loop me q (min cnt (length (contents q))) [])
          (λ bytes q' (b, v', c).
            (b ∙ take-min-length cnt (contents q), v', c ∙ drop-min-length cnt (contents q)))
          (read_loop-there me q (min cnt (length (contents q))) [] (contents q) v refl
            (omega arith)))
