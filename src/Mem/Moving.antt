-- ===== src/Mem/Moving.antt =====
-- The loops of memcpy of lib/string.c.
use mmzzos.Base.{
  ℕ, zero, suc, ◌+◌, ◌%◌, ◌^◌, ◌<◌, ◌≡◌, refl, ◌==◌, arith, Bool-cases, inl, inr, subst,
}
use mmzzos.Mem.{
  Memory, forward, store_byte, store_word, load_word, Copy, copy_bytes, copy_head, copy_words,
  memcpy,
}
use mmzzos.Mem.Setting.{forward_lem}
use mmzzos.Mem.Copying.{
  IsBytes, Apart, Copied, Copied-IsBytes, Copied-byte, Copied-word, Part, Part-none, Part-join,
  Part-byte,
}

-- What each loop asks for: bytes, two blocks that end before the last address and do not overlap.
record Ready (size dst src : ℕ) (m : Memory) : Type 0 where
  small : IsBytes m
  to : dst + size < 2 ^ 32
  from : src + size < 2 ^ 32
  apart : Apart dst src size

-- The rest of two blocks whose first `a` bytes are copied.
Ready-rest :
    (size a n dst src : ℕ) (m m1 : Memory)
    → a + n ≡ size
    → Ready size dst src m
    → Copied dst src a m m1
    → Ready n (forward a dst) (forward a src) m1
Ready-rest size a n dst src m m1 e r c =
    let d = forward_lem a dst (omega (arith, r.to)) in
    let s = forward_lem a src (omega (arith, r.from)) in
    record {
      small = Copied-IsBytes dst src a m m1 r.small c;
      to = omega (arith, d, r.to);
      from = omega (arith, s, r.from);
      apart = ground (arith, d, s, r.apart);
    }

copy_bytes_lem :
    (size : ℕ) (m : Memory) (dst src : ℕ)
    → Ready size dst src m
    → Part size dst src m (copy_bytes size m dst src) × ((copy_bytes size m dst src).size ≡ 0)
unfolding copy_bytes
copy_bytes_lem zero m dst src r = (Part-none zero dst src m, refl)
copy_bytes_lem (suc n) m dst src r =
    let c = Copied-byte m dst src r.small in
    let (p, done) =
      copy_bytes_lem n (store_byte m dst (m src)) (forward 1 dst) (forward 1 src)
        (Ready-rest (suc n) 1 n dst src m _ (omega arith) r c) in
    (Part-byte n dst src m _ r.small r.to r.from r.apart p, done)

copy_head_lem :
    (size : ℕ) (m : Memory) (dst src : ℕ)
    → Ready size dst src m
    → Part size dst src m (copy_head size m dst src)
unfolding copy_head
copy_head_lem zero m dst src r = Part-none zero dst src m
copy_head_lem (suc n) m dst src r = elim (Bool-cases (dst % 4 == 0)) [
  | inl h ↦ rw h (Part-none (suc n) dst src m)
  | inr h ↦
      let c = Copied-byte m dst src r.small in
      let p =
        copy_head_lem n (store_byte m dst (m src)) (forward 1 dst) (forward 1 src)
          (Ready-rest (suc n) 1 n dst src m _ (omega arith) r c) in
      rw h (Part-byte n dst src m _ r.small r.to r.from r.apart p)
]

copy_words_lem :
    (size : ℕ) (m : Memory) (dst src : ℕ)
    → Ready size dst src m
    → Part size dst src m (copy_words size m dst src)
unfolding copy_words
copy_words_lem zero m dst src r = Part-none _ dst src m
copy_words_lem (suc zero) m dst src r = Part-none _ dst src m
copy_words_lem (suc (suc zero)) m dst src r = Part-none _ dst src m
copy_words_lem (suc (suc (suc zero))) m dst src r = Part-none _ dst src m
copy_words_lem (suc (suc (suc (suc n)))) m dst src r =
    let size = suc (suc (suc (suc n))) in
    let m1 = store_word m dst (load_word m src) in
    let c = Copied-word m dst src r.small (omega (arith, r.to)) (omega (arith, r.from)) in
    let p =
      copy_words_lem n m1 (forward 4 dst) (forward 4 src)
        (Ready-rest size 4 n dst src m m1 (omega arith) r c) in
    let out = copy_words n m1 (forward 4 dst) (forward 4 src) in
    Part-join size 4 n dst src m m1 out (omega arith) r.apart c (
      subst (λ d. Part n d (src + 4) m1 out) (forward_lem 4 dst (omega (arith, r.to)))
        (subst (λ s. Part n (forward 4 dst) s m1 out) (forward_lem 4 src (omega (arith, r.from)))
          p))

Part-Ready :
    (size dst src : ℕ) (m : Memory) (out : Copy)
    → Ready size dst src m
    → Part size dst src m out
    → Ready out.size out.dst out.src out.memory
Part-Ready size dst src m out r p = record {
  small = Copied-IsBytes dst src p.count m out.memory r.small p.copied;
  to = omega (arith, p.to, p.total, r.to);
  from = omega (arith, p.from, p.total, r.from);
  apart = ground (arith, p.to, p.from, p.total, r.apart);
}

-- One loop behind another.
Part-chain :
    (size dst src : ℕ) (m : Memory) (out out' : Copy)
    → Apart dst src size
    → Part size dst src m out
    → Part out.size out.dst out.src out.memory out'
    → Part size dst src m out'
Part-chain size dst src m out out' apart p q =
    Part-join size p.count out.size dst src m out.memory out' p.total apart p.copied (
      subst (λ d. Part out.size d (src + p.count) out.memory out') p.to
        (subst (λ s. Part out.size out.dst s out.memory out') p.from q))

Part-over :
    (size dst src : ℕ) (m : Memory) (out : Copy)
    → Part size dst src m out
    → out.size ≡ 0
    → Copied dst src size m out.memory
Part-over size dst src m out p done =
    let all : p.count ≡ size = omega (arith, p.total) in
    subst (λ n. Copied dst src n m out.memory) all p.copied

copy_aligned :
    (m : Memory) (dst src size : ℕ)
    → Ready size dst src m
    → let head = copy_head size m dst src in
      let body = copy_words head.size head.memory head.dst head.src in
      Copied dst src size m (copy_bytes body.size body.memory body.dst body.src).memory
copy_aligned m dst src size r =
    let head = copy_head size m dst src in
    let body = copy_words head.size head.memory head.dst head.src in
    let p = copy_head_lem size m dst src r in
    let q =
      copy_words_lem head.size head.memory head.dst head.src (Part-Ready size dst src m head r p) in
    let pq = Part-chain size dst src m head body r.apart p q in
    let (t, done) =
      copy_bytes_lem body.size body.memory body.dst body.src
        (Part-Ready size dst src m body r pq) in
    Part-over size dst src m _ (Part-chain size dst src m body _ r.apart pq t) done

-- In a memory of bytes, on two blocks that do not overlap and end before the last address `memcpy` copies each byte,
-- whether or not their addresses agree modulo four, and changes no byte outside the destination.
pub memcpy_lem :
    (m : Memory) (dst src size : ℕ)
    → IsBytes m
    → dst + size < 2 ^ 32
    → src + size < 2 ^ 32
    → Apart dst src size
    → Copied dst src size m (memcpy m dst src size).0
unfolding memcpy
memcpy_lem m dst src size small fits fits' apart =
    let r : Ready size dst src m = record {
      small = small;
      to = fits;
      from = fits';
      apart = apart;
    } in
    let (p, done) = copy_bytes_lem size m dst src r in
    elim (Bool-cases (dst % 4 == src % 4)) [
      | inl e ↦ rw e (copy_aligned m dst src size r)
      | inr e ↦ rw e (Part-over size dst src m _ p done)
    ]
