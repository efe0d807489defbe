-- ===== src/Mem/Setting.antt =====
-- memset of lib/string.c fills its block, whatever the alignment.
use mmzzos.Base.{
  ℕ, zero, suc, ◌+◌, ◌/◌, ◌%◌, ◌^◌, ◌≤◌, ◌<◌, ◌≡◌, refl, true, ◌&&◌, ◌==◌, leb, ltb, if◌then◌else◌,
  arith, Bool-cases, inl, inr,
}
use mmzzos.Base.Bytes.{passes, passes-true}
use mmzzos.Mem.{
  Memory, forward, store_byte, store_word, Fill, fill_head, fill_words, fill_tail, four_times,
  memset,
}

pub forward_lem : (by pointer : ℕ) → pointer + by < 2 ^ 32 → forward by pointer ≡ pointer + by
unfolding forward
forward_lem by pointer fits = omega arith

-- `m'` is `m` with the bytes from `from` up to `to` set to `byte`.
abbrev pub Filled : ℕ → ℕ → ℕ → Memory → Memory → Type 0
Filled byte from to m m' = (x : ℕ) → m' x ≡ (if leb from x && ltb x to then byte else m x)

Filled-none : (byte at : ℕ) (m : Memory) → Filled byte at at m m
Filled-none byte at m x = ground arith

Filled-join :
    (byte a b c : ℕ) (m m1 m2 : Memory)
    → a ≤ b
    → b ≤ c
    → Filled byte a b m m1
    → Filled byte b c m1 m2
    → Filled byte a c m m2
Filled-join byte a b c m m1 m2 ab bc f g x = ground (arith, f x, g x)

Filled-byte :
    (m : Memory) (at byte : ℕ) → byte < 256 → Filled byte at (at + 1) m (store_byte m at byte)
unfolding store_byte
Filled-byte m at byte small x = ground arith

repeat_table :
    passes
      (λ b.
        (four_times b % 256 == b)
        && ((four_times b / 2 ^ 8 % 256 == b)
            && ((four_times b / 2 ^ 16 % 256 == b) && (four_times b / 2 ^ 24 % 256 == b))))
      256
    ≡ true
unfolding passes four_times
repeat_table = refl

Filled-word :
    (m : Memory) (at byte : ℕ)
    → byte < 256
    → at + 3 < 2 ^ 32
    → Filled byte at (at + 4) m (store_word m at (four_times byte))
unfolding store_word store_byte
Filled-word m at byte small fits x =
    let table = passes-true _ 256 byte small repeat_table in
    rw
      (
        forward_lem 1 at (omega arith),
        forward_lem 2 at (omega arith),
        forward_lem 3 at (omega arith),
      )
      (ground arith)

-- How a loop ends that filled from `dst`: it went on by as many bytes as it took off the size.
record Part (byte size dst : ℕ) (m : Memory) (out : Fill) : Type 0 where
  after : dst ≤ out.dst
  total : out.dst + out.size ≡ dst + size
  filled : Filled byte dst out.dst m out.memory

fill_head_lem :
    (size : ℕ) (m : Memory) (byte dst : ℕ)
    → byte < 256
    → dst + size < 2 ^ 32
    → Part byte size dst m (fill_head size m byte dst)
unfolding fill_head
fill_head_lem zero m byte dst small fits = record {
  after = omega arith;
  total = refl;
  filled = Filled-none byte dst m;
}
fill_head_lem (suc n) m byte dst small fits = elim (Bool-cases (dst % 4 == 0)) [
  | inl h ↦ rw h (record { after = omega arith; total = refl; filled = Filled-none byte dst m })
  | inr h ↦ rw h (further (fill_head_lem n (store_byte m dst byte) byte (forward 1 dst) small room))
]
  where
    one : forward 1 dst ≡ dst + 1
    one = forward_lem 1 dst (omega arith)

    room : forward 1 dst + n < 2 ^ 32
    room = omega (arith, one)

    out : Fill
    out = fill_head n (store_byte m dst byte) byte (forward 1 dst)

    further : Part byte n (forward 1 dst) (store_byte m dst byte) out → Part byte (suc n) dst m out
    further p = record {
      after = omega (arith, one, p.after);
      total = omega (arith, one, p.total);
      filled =
          Filled-join byte dst (forward 1 dst) out.dst m (store_byte m dst byte) out.memory
            (omega (arith, one)) p.after (rw one (Filled-byte m dst byte small)) p.filled;
    }

fill_words_lem :
    (size : ℕ) (m : Memory) (byte dst : ℕ)
    → byte < 256
    → dst + size < 2 ^ 32
    → Part byte size dst m (fill_words size m (four_times byte) dst)
unfolding fill_words
fill_words_lem zero m byte dst small fits = record {
  after = omega arith;
  total = refl;
  filled = Filled-none byte dst m;
}
fill_words_lem (suc zero) m byte dst small fits = record {
  after = omega arith;
  total = refl;
  filled = Filled-none byte dst m;
}
fill_words_lem (suc (suc zero)) m byte dst small fits = record {
  after = omega arith;
  total = refl;
  filled = Filled-none byte dst m;
}
fill_words_lem (suc (suc (suc zero))) m byte dst small fits = record {
  after = omega arith;
  total = refl;
  filled = Filled-none byte dst m;
}
fill_words_lem (suc (suc (suc (suc n)))) m byte dst small fits =
    further (fill_words_lem n (store_word m dst (four_times byte)) byte (forward 4 dst) small room)
  where
    four : forward 4 dst ≡ dst + 4
    four = forward_lem 4 dst (omega arith)

    room : forward 4 dst + n < 2 ^ 32
    room = omega (arith, four)

    m1 : Memory
    m1 = store_word m dst (four_times byte)

    out : Fill
    out = fill_words n m1 (four_times byte) (forward 4 dst)

    further : Part byte n (forward 4 dst) m1 out → Part byte (suc (suc (suc (suc n)))) dst m out
    further p = record {
      after = omega (arith, four, p.after);
      total = omega (arith, four, p.total);
      filled =
          Filled-join byte dst (forward 4 dst) out.dst m m1 out.memory (omega (arith, four)) p.after
            (rw four (Filled-word m dst byte small (omega arith))) p.filled;
    }

fill_tail_lem :
    (size : ℕ) (m : Memory) (byte dst : ℕ)
    → byte < 256
    → dst + size < 2 ^ 32
    → Filled byte dst (dst + size) m (fill_tail size m byte dst)
unfolding fill_tail
fill_tail_lem zero m byte dst small fits x = ground arith
fill_tail_lem (suc n) m byte dst small fits x =
    let one = forward_lem 1 dst (omega arith) in
    let rest =
      fill_tail_lem n (store_byte m dst byte) byte (forward 1 dst) small (omega (arith, one)) x in
    ground (arith, one, rest, Filled-byte m dst byte small x)

-- On a block that ends before the last address `memset` sets each byte of the block to the lowest
-- byte of `dt`, whatever the alignment of the block, and changes no other byte.
pub memset_lem :
    (m : Memory) (dst dt size : ℕ)
    → dst + size < 2 ^ 32
    → Filled (dt % 256) dst (dst + size) m (memset m dst dt size)
unfolding memset
memset_lem m dst dt size fits x =
    let small : dt % 256 < 256 = omega arith in
    let head = fill_head_lem size m (dt % 256) dst small fits in
    let h = fill_head size m (dt % 256) dst in
    let body = fill_words_lem h.size h.memory (dt % 256) h.dst small (omega (arith, head.total)) in
    let b = fill_words h.size h.memory (four_times (dt % 256)) h.dst in
    let last =
      fill_tail_lem b.size b.memory (dt % 256) b.dst small (omega (arith, head.total, body.total))
        x in
    ground
      (arith, head.total, body.total, head.after, body.after, head.filled x, body.filled x, last)
