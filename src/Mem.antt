-- ===== src/Mem.antt =====
-- memset, memcpy and memcmp of lib/string.c on a flat memory of bytes with 32-bit addresses.
-- A word is four bytes, the lowest first. Each loop is structural on the bytes that are left.
pub mod Setting
pub mod Copying
pub mod Moving
pub mod Comparing
mod Tests
use mmzzos.Base.{
  ℕ, zero, suc, ◌+◌, ◌*◌, ◌/◌, ◌%◌, ◌^◌, Bool, true, false, ◌==◌, ltb, if◌then◌else◌, bit_or, not,
}

abbrev pub Memory : Type 0
Memory = ℕ → ℕ

-- A pointer `by` bytes further.
unfoldable pub forward : ℕ → ℕ → ℕ
forward by pointer = (pointer + by) % 2 ^ 32

unfoldable pub store_byte : Memory → ℕ → ℕ → Memory
store_byte m at value x = if x == at then value % 256 else m x

unfoldable pub store_word : Memory → ℕ → ℕ → Memory
unfolding store_byte forward
store_word m at w =
    let m1 = store_byte m at w in
    let m2 = store_byte m1 (forward 1 at) (w / 2 ^ 8) in
    let m3 = store_byte m2 (forward 2 at) (w / 2 ^ 16) in store_byte m3 (forward 3 at) (w / 2 ^ 24)

unfoldable pub load_word : Memory → ℕ → ℕ
unfolding forward
load_word m at =
    m at + 2 ^ 8 * m (forward 1 at) + 2 ^ 16 * m (forward 2 at) + 2 ^ 24 * m (forward 3 at)

-- What a loop leaves: the memory, the pointers and the size left.
pub record Fill : Type 0 where
  pub memory : Memory
  pub dst : ℕ
  pub size : ℕ

-- `while(((uint32_t)dst&0x3)&&size)`
unfoldable pub fill_head : ℕ → Memory → ℕ → ℕ → Fill
fill_head zero m byte dst = record { memory = m; dst = dst; size = 0 }
fill_head (suc n) m byte dst =
    let rest = fill_head n (store_byte m dst byte) byte (forward 1 dst) in
    if dst % 4 == 0 then record { memory = m; dst = dst; size = suc n } else rest

-- `while(size>=4)`
unfoldable pub fill_words : ℕ → Memory → ℕ → ℕ → Fill
fill_words (suc (suc (suc (suc n)))) m dat buf =
    fill_words n (store_word m buf dat) dat (forward 4 buf)
fill_words n m dat buf = record { memory = m; dst = buf; size = n }

-- `while(size)`
unfoldable pub fill_tail : ℕ → Memory → ℕ → ℕ → Memory
fill_tail zero m byte buf = m
fill_tail (suc n) m byte buf = fill_tail n (store_byte m buf byte) byte (forward 1 buf)

-- `(dt<<24)|(dt<<16)|(dt<<8)|dt`
unfoldable pub four_times : ℕ → ℕ
four_times dt = bit_or (bit_or (bit_or (dt * 2 ^ 24) (dt * 2 ^ 16)) (dt * 2 ^ 8)) dt

unfoldable pub memset : Memory → ℕ → ℕ → ℕ → Memory
memset m dst dt size =
    let byte = dt % 256 in
    let head = fill_head size m byte dst in
    let body = fill_words head.size head.memory (four_times byte) head.dst in
    fill_tail body.size body.memory byte body.dst

pub record Copy : Type 0 where
  pub memory : Memory
  pub dst : ℕ
  pub src : ℕ
  pub size : ℕ

-- `while(size--)` of the copy byte by byte, and the last loop of the other one
unfoldable pub copy_bytes : ℕ → Memory → ℕ → ℕ → Copy
copy_bytes zero m dst src = record { memory = m; dst = dst; src = src; size = 0 }
copy_bytes (suc n) m dst src =
    copy_bytes n (store_byte m dst (m src)) (forward 1 dst) (forward 1 src)

unfoldable pub copy_head : ℕ → Memory → ℕ → ℕ → Copy
copy_head zero m dst src = record { memory = m; dst = dst; src = src; size = 0 }
copy_head (suc n) m dst src =
    let rest = copy_head n (store_byte m dst (m src)) (forward 1 dst) (forward 1 src) in
    if dst % 4 == 0 then record { memory = m; dst = dst; src = src; size = suc n } else rest

unfoldable pub copy_words : ℕ → Memory → ℕ → ℕ → Copy
copy_words (suc (suc (suc (suc n)))) m dst src =
    copy_words n (store_word m dst (load_word m src)) (forward 4 dst) (forward 4 src)
copy_words n m dst src = record { memory = m; dst = dst; src = src; size = n }

-- The memory and the pointer that `memcpy` returns.
unfoldable pub memcpy : Memory → ℕ → ℕ → ℕ → Memory × ℕ
memcpy m dst src size =
    let bytes = copy_bytes size m dst src in
    let head = copy_head size m dst src in
    let body = copy_words head.size head.memory head.dst head.src in
    let last = copy_bytes body.size body.memory body.dst body.src in
    if not (dst % 4 == src % 4) then (bytes.memory, bytes.dst) else (last.memory, head.dst)

-- The results -1, 0 and 1 of a comparison. A negative `cnt` is as 0.
pub data Sign : Type 0 where
  less : Sign
  equal : Sign
  greater : Sign

unfoldable pub memcmp : ℕ → Memory → ℕ → ℕ → Sign
memcmp zero m s0 s1 = equal
memcmp (suc n) m s0 s1 =
    let rest = memcmp n m (forward 1 s0) (forward 1 s1) in
    if ltb (m s0) (m s1) then less else if ltb (m s1) (m s0) then greater else rest
