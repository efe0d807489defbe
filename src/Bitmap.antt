-- ===== src/Bitmap.antt =====
-- lib/kernel/bitmap.c: a map of `8 * len` bits in `len` bytes of storage.
-- The storage behind `bits` is a list of bytes; an access that leaves it is a `fault`.
pub mod Bits
pub mod Search
mod Tests
use mmzzos.Base.{
  ℕ, zero, suc, ◌+◌, ◌-◌, ◌*◌, ◌/◌, ◌%◌, ◌<◌, ◌≡◌, Bool, Option, none, some, List, [], ◌∷◌, leb,
  if◌then◌else◌, length, get_elem?, get_or, set, All, Result, ok, panic, fault, ◌>>=◌, ◌>>◌, assert,
  from_option,
}
use mmzzos.Base.Bytes.{bit, set_bit, clear_bit}

pub record BitMap : Type 0 where
  pub len : ℕ
  pub bits : List ℕ

-- `memset(p, 0, n)` on the bytes of a storage that begins at `p`.
unfoldable pub zero_fill : ℕ → List ℕ → Result (List ℕ)
zero_fill zero bs = ok bs
zero_fill (suc n) [] = fault
zero_fill (suc n) (b ∷ bs) = do rest ← zero_fill n bs; ok (0 ∷ rest)

unfoldable pub init : BitMap → Result BitMap
init bp = do bs ← zero_fill bp.len bp.bits; ok (record bp { bits = bs })

-- `idx >> 3` and `idx & 0x7`
abbrev pub byte_index : ℕ → ℕ
byte_index idx = idx / 8

abbrev pub bit_index : ℕ → ℕ
bit_index idx = idx % 8

unfoldable pub reset_bit : BitMap → ℕ → Result BitMap
reset_bit bp idx = do
  assert (leb (byte_index idx) bp.len)
  b ← from_option (get_elem? bp.bits (byte_index idx))
  ok (record bp { bits = set bp.bits (byte_index idx) (clear_bit b (bit_index idx)) })

unfoldable pub mark_bit : BitMap → ℕ → Result BitMap
mark_bit bp idx = do
  assert (leb (byte_index idx) bp.len)
  b ← from_option (get_elem? bp.bits (byte_index idx))
  ok (record bp { bits = set bp.bits (byte_index idx) (set_bit b (bit_index idx)) })

unfoldable pub test_bit : BitMap → ℕ → Result Bool
test_bit bp idx = do
  assert (leb (byte_index idx) bp.len)
  b ← from_option (get_elem? bp.bits (byte_index idx))
  ok (bit b (bit_index idx))

-- How the inner loop of `BitMapAllocate` ends: with a target, or with the two ends of the window.
pub data Scan : Type 0 where
  found : ℕ → Scan
  more : ℕ → ℕ → Scan

-- The inner loop, with `n` rounds left: `j` runs over the bits of the byte `b`, `r` over those of
-- the map, and the bits from `l` up to `r` are clear. `l` is at most `r + 1`, so that the
-- difference does not stop at 0.
unfoldable pub scan_byte : ℕ → ℕ → ℕ → ℕ → ℕ → ℕ → Scan
scan_byte zero b cnt j l r = more l r
scan_byte (suc n) b cnt j l r =
    let l' = if bit b j then r + 1 else l in
    let rest = scan_byte n b cnt (j + 1) l' (r + 1) in
    if leb cnt (r + 1 - l') then found l' else rest

-- The outer loop, with `n` bytes left; `none` is the target -1.
unfoldable pub scan : ℕ → List ℕ → ℕ → ℕ → ℕ → Result (Option ℕ)
unfolding scan_byte
scan zero bs cnt l r = ok none
scan (suc n) [] cnt l r = fault
scan (suc n) (b ∷ bs) cnt l r = elim (scan_byte 8 b cnt 0 l r) [
  | found t ↦ ok (some t)
  | more l' r' ↦ scan n bs cnt l' r'
]

unfoldable pub allocate : BitMap → ℕ → Result (Option ℕ)
unfolding scan
allocate bp cnt = scan bp.len bp.bits cnt 0 0

-- The storage is exactly the `len` bytes of the map.
pub record IsValid (bp : BitMap) : Type 0 where
  pub storage : length bp.bits ≡ bp.len
  pub bytes : All (λ b. b < 256) bp.bits

-- The abstract map: bit `i`, clear beyond the storage.
abbrev pub bit_of : List ℕ → ℕ → Bool
bit_of bs i = bit (get_or bs (byte_index i) 0) (bit_index i)

abbrev pub bit_at : BitMap → ℕ → Bool
bit_at bp = bit_of bp.bits
