-- ===== src/Storage/Tests.antt =====
-- A file of 5000 bytes in the blocks at the sectors 100 and 108 of a blank disk.
use mathlib.Core.Logic.{◌⊎◌, inl, inr}
use mmzzos.Base.{
  ℕ, zero, suc, ◌+◌, ◌*◌, ◌%◌, ◌≡◌, ◌≢◌, ◌<◌, refl, sym, none, some, List, [], ◌∷◌, ltb, ◌==◌,
  if◌then◌else◌, get_or, replicate, arith, ok, panic, Bool-cases,
}
use mmzzos.Disk.{Bytes}
use mmzzos.Bitmap.{BitMap, allocate, mark_bit, scan, scan_byte, IsValid}
use mmzzos.Base.Bytes.{bit, set_bit}
use mmzzos.Storage.{block_size, inode_bytes, inode_read, inode_write}
use mmzzos.Storage.Blocks.{
  Partition, Work, take_bits, mark_bits, block_bitmap_allocate, block_bitmap_reset,
  allocate_one_block,
}
use mmzzos.Storage.Access.{addresses, slice, file_read, file_write, Opened, Written}
use mmzzos.Storage.Table.{Outside, inode_write-inode_read}
use mmzzos.Storage.Writing.{write_limit, Touched, Apart}
use mmzzos.Storage.Roundtrip.{IsBacked, IsClear, WriteSpec, file_write_lem, file_write-file_read}
use mmzzos.Storage.Allocation.{
  Returned, Allocated, block_bitmap_allocate-reset, allocate_one_block-panic,
}

abbrev blank : Bytes
blank p = 0

abbrev counting : Bytes
counting p = p % 256

abbrev zeros : ℕ → List ℕ
zeros n = replicate n 0

abbrev two_blocks : List ℕ
two_blocks = 100 ∷ 108 ∷ zeros 13

abbrev no_map : BitMap
no_map = record { len = 1; bits = 0 ∷ [] }

abbrev small_part : Partition
small_part = record {
  disk = blank;
  sector_bitmap = no_map;
  inode_bitmap = no_map;
  sector_bitmap_lba = 2;
  inode_bitmap_lba = 3;
  data_lba = 505;
}

abbrev work : Work
work = record { part = small_part; sectors = two_blocks; buf = blank }

get_or-zeros : (n i : ℕ) → get_or (zeros n) i 0 ≡ 0
get_or-zeros zero i = refl
get_or-zeros (suc n) zero = refl
get_or-zeros (suc n) (suc i) = get_or-zeros n i

no_more : (i : ℕ) → addresses blank two_blocks (suc (suc i)) ≡ 0
no_more i = elim (Bool-cases (ltb (suc (suc i)) 12)) [
  | inl direct ↦ rw direct (get_or-zeros 13 i)
  | inr far ↦ rw far refl
]

apart_at :
    (j : ℕ)
    → (j ≢ 0 → Apart 100 (addresses blank two_blocks j))
      × (j ≢ 1 → Apart 108 (addresses blank two_blocks j))
apart_at zero = (λ ne. absurd (ne refl), λ ne. inr (omega arith))
apart_at (suc zero) = (λ ne. inl (omega arith), λ ne. absurd (ne refl))
apart_at (suc (suc j)) = rw (no_more j) (λ ne. inr (omega arith), λ ne. inr (omega arith))

there : (i : ℕ) → Touched 4090 20 i → addresses blank two_blocks i ≢ 0
there zero t = omega arith
there (suc zero) t = omega arith
there (suc (suc i)) t = absurd (omega (arith, t.0))

apart :
    (i j : ℕ)
    → Touched 4090 20 i
    → j < write_limit
    → i ≢ j
    → Apart (addresses blank two_blocks i) (addresses blank two_blocks j)
apart zero j t lt ne = (apart_at j).0 (λ e. ne (sym e))
apart (suc zero) j t lt ne = (apart_at j).1 (λ e. ne (sym e))
apart (suc (suc i)) j t lt ne = absurd (omega (arith, t.0))

table : (i : ℕ) → Touched 4090 20 i → Apart (addresses blank two_blocks i) (get_or two_blocks 12 0)
table zero t = inr (omega arith)
table (suc zero) t = inr (omega arith)
table (suc (suc i)) t = absurd (omega (arith, t.0))

backed : IsBacked blank two_blocks 4090 20
backed = record { there = there; apart = apart; table = table }

abbrev inode : Opened
inode = record { table = 7; index = 6; bytes = blank }

clear : IsClear inode blank two_blocks
clear = record {
  small = omega arith;
  blocks = outside_inode;
  addresses_table = λ r ne lt. absurd (ne refl);
}
  where
    outside_inode :
        (i r : ℕ)
        → i < write_limit
        → addresses blank two_blocks i ≢ 0
        → r < block_size
        → Outside 7 6 (512 * addresses blank two_blocks i + r)
    outside_inode zero r lt ne rlt = inr (omega arith)
    outside_inode (suc zero) r lt ne rlt = inr (omega arith)
    outside_inode (suc (suc i)) r lt ne rlt = absurd (ne (no_more i))

inode_write-inode_read_example :
    (disk' : Bytes) × (inode_write blank 7 6 counting ≡ ok disk')
    × ((i : ℕ)
        → i < inode_bytes
        → inode_read disk' 7 12 i ≡ (if 12 == 6 then counting i else inode_read blank 7 12 i))
    × ((p : ℕ) → Outside 7 6 p → disk' p ≡ blank p)
inode_write-inode_read_example =
    inode_write-inode_read blank 7 6 12 counting (omega arith) (omega arith)

file_write_lem_example :
    (r : Written) × (file_write inode work counting 5000 4090 20 ≡ ok r)
    × WriteSpec inode work counting 5000 4090 20 r
file_write_lem_example = file_write_lem inode work counting 5000 4090 20 (omega arith) backed clear

file_write-file_read_example :
    (r : Written) × (file_write inode work counting 5000 4090 20 ≡ ok r)
    × (file_read r.work.part.disk r.work.sectors r.size 4090 20 ≡ (slice counting 0 20, 4090 + 20))
file_write-file_read_example =
    file_write-file_read inode work counting 5000 4090 20 (omega arith) backed clear

valid : IsValid no_map
valid = record { storage = refl; bytes = (omega arith, tt) }

block_bitmap_allocate-reset_example :
    ((block_bitmap_allocate small_part ≡ ok (none, small_part))
      × Allocated small_part (none, small_part))
    ⊎ ((i : ℕ) × (part1 : Partition) × (part2 : Partition) × (block_bitmap_allocate small_part
          ≡ ok (some i, part1))
        × Allocated small_part (some i, part1)
        × (block_bitmap_reset i part1 ≡ ok part2)
        × Returned small_part part2)
block_bitmap_allocate-reset_example = block_bitmap_allocate-reset small_part valid

-- A map of two sectors, all of them free.
abbrev large_map : BitMap
large_map = record { len = 1024; bits = 0 ∷ zeros 1023 }

abbrev large_work : Work
large_work = record {
  part = record small_part { sector_bitmap = large_map };
  sectors = two_blocks;
  buf = blank;
}

taken :
    block_bitmap_allocate large_work.part
    ≡ ok (
      some 0,
      record small_part { sector_bitmap = record { len = 1024; bits = 255 ∷ zeros 1023 } },
    )
unfolding block_bitmap_allocate take_bits mark_bits allocate scan scan_byte mark_bit bit set_bit
taken = refl

-- The block 0 is at the sector 505.
allocate_one_block-panic_example : allocate_one_block 2 large_work ≡ panic
allocate_one_block-panic_example =
    allocate_one_block-panic 2 0 large_work _ (omega arith) taken (omega arith) (omega arith)
